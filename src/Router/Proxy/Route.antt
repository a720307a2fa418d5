-- ===== src/Router/Proxy/Route.antt =====
-- `proxy_json_route` of crates/lmml-router/src/lib.rs.
use Prim.Native.String
use lmml.Base.{
  ℕ, String, Option, List, ◌==◌, if◌then◌else◌, Result, ok, err, ◌>>=◌, ◌>>◌, reject_if,
}
use lmml.Base.Text.{is_blank}
use lmml.Substrate.Disk.{Bytes}
use lmml.Substrate.Json.{Value}
use lmml.Router.Types.{UpstreamNodeConfig, RouterConfig, RouterCounters, UpstreamProbe, ApiFailure}
use lmml.Router.Access.{Headers}
use lmml.Router.Selection.{requested_model, select_upstream}
use lmml.Router.Proxy.{
  InferRequest, AuthorizedBody, UpstreamRequest, Sent, Response, failure, or_failure, first_id,
  read_authorized_body, call_upstream,
}

-- The checks of `/v1/infer`; `infer_request` reads the record from the JSON.
abbrev pub check_prompt : InferRequest → (request_id : Option String) → Result ApiFailure (Unit {0})
check_prompt request request_id =
    reject_if (is_blank request.prompt) (
      failure 400 "empty_prompt" "prompt must not be empty"
        (first_id request_id request.request_id))

unfoldable pub check_infer :
    (infer_request : Value → Result String InferRequest)
    → (path : String) → Value
    → (request_id : Option String) → Result ApiFailure (Unit {0})
check_infer infer_request path value request_id =
    if path == "/v1/infer"
    then (or_failure
          (λ text.
            failure 400 "invalid_infer_request"
              (String.◌++◌ "invalid LMML infer request JSON: " text) request_id)
          (infer_request value)
        >>= λ request. check_prompt request request_id)
    else ok tt

module _ (lowercase : String → String) (enforcement : Option String)
    (from_slice : Bytes → Result String Value)
    (infer_request : Value → Result String InferRequest) where
  -- What precedes the call: the upstream and the body. `seen` are the counters that the selection reads.
  unfoldable pub choose_upstream :
      RouterConfig
      → Headers
      → (to_bytes : ℕ → Result String Bytes) → (path : String) → (seen : RouterCounters)
      → List UpstreamProbe
      → Result ApiFailure (UpstreamNodeConfig × AuthorizedBody)
  unfolding read_authorized_body check_infer
  choose_upstream config headers to_bytes path seen probes = do
    body ← read_authorized_body config headers to_bytes
    value ←
        or_failure
          (λ text.
            failure 400 "invalid_json" (String.◌++◌ "invalid router request JSON: " text)
              body.request_id)
          (from_slice body.bytes)
    check_infer infer_request path value body.request_id
    upstream ←
        select_upstream lowercase enforcement seen path (requested_model path value) body.request_id
          probes
    ok (upstream, body)

  module _ (send : UpstreamRequest → Sent) (meanwhile : RouterCounters → RouterCounters)
      (counters : RouterCounters) (path : String) where
    abbrev pub call_chosen :
        Result ApiFailure (UpstreamNodeConfig × AuthorizedBody)
        → Result ApiFailure Response × RouterCounters
    call_chosen (ok (upstream, body)) = call_upstream send meanwhile counters upstream path body
    call_chosen (err e) = (err e, counters)

    unfoldable pub proxy_json_route :
        RouterConfig
        → Headers
        → (to_bytes : ℕ → Result String Bytes) → (seen : RouterCounters) → List UpstreamProbe
        → Result ApiFailure Response × RouterCounters
    unfolding choose_upstream
    proxy_json_route config headers to_bytes seen probes =
        call_chosen (choose_upstream config headers to_bytes path seen probes)
