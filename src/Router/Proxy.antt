-- ===== src/Router/Proxy.antt =====
-- A request that is passed on: `read_authorized_body` and `call_upstream` of
-- crates/lmml-router/src/lib.rs. `send` is the request of `reqwest` under its timeout. Other calls may
-- change the counters while one waits for its upstream: `meanwhile` is what they do.
pub mod Route
pub mod Routed
pub mod Balanced
use Prim.Native.String
use lmml.Base.{
  ℕ, ◌*◌, String, Bool, true, false, not, ◌||◌, Option, none, some, List, ◌==◌, ltb, leb,
  if◌then◌else◌, Result, ok, err, ◌>>=◌, ◌>>◌, reject_if,
}
use lmml.Base.Text.{is_blank}
use lmml.Base.Ascii.{ascii_text}
use lmml.Base.Decimal.{print_u64}
use lmml.Substrate.Disk.{Bytes}
use lmml.Substrate.Json.{Value}
use lmml.Router.Types.{UpstreamNodeConfig, RouterConfig, RouterCounters, UpstreamProbe, ApiFailure}
use lmml.Router.Access.{Headers, authorize}
use lmml.Router.Specs.{upstream_url}
use lmml.Router.Counters.{increment_router_running, finish_router_request}
use lmml.Router.Selection.{requested_model, select_upstream}

-- The fields of `InferRequest` that the router reads.
pub record InferRequest : Type 0 where
  pub request_id : Option String
  pub prompt : String

pub record AuthorizedBody : Type 0 where
  pub request_id : Option String
  pub bytes : Bytes

pub record UpstreamRequest : Type 0 where
  pub url : String
  pub bearer_auth : Option String
  pub request_id : Option String
  pub body : Bytes

pub record UpstreamResponse : Type 0 where
  pub status : ℕ
  pub content_type : Option String
  pub upstream_node_id : Option String
  pub bytes : Bytes

-- What comes of sending: a response, an error of `reqwest` with its text, or the timeout.
pub data Sent : Type 0 where
  responded : UpstreamResponse → Sent
  failed : (message : String) → Sent
  timed_out : Sent

pub record Response : Type 0 where
  pub status : ℕ
  pub content_type : Option String
  pub request_id : Option String
  pub node_id : Option String
  pub body : Bytes

abbrev pub failure : (status : ℕ) (code message : String) → Option String → ApiFailure
failure status code message request_id = record {
  status = status;
  code = code;
  message = message;
  request_id = request_id;
}

abbrev pub max_router_body_bytes : ℕ
max_router_body_bytes = 1024 * 1024

abbrev pub not_blank : Option String → Option String
not_blank none = none
not_blank (some value) = if is_blank value then none else some value

unfoldable pub request_id_from_headers : Headers → Option String
request_id_from_headers headers = not_blank (headers "x-lmml-request-id")

abbrev pub or_failure : {A : Type 0} → (String → ApiFailure) → Result String A → Result ApiFailure A
or_failure f (ok a) = ok a
or_failure f (err text) = err (f text)

abbrev pub first_id : Option String → Option String → Option String
first_id none b = b
first_id (some a) b = some a

abbrev pub is_ok : {A : Type 0} → Result ApiFailure A → Bool
is_ok (ok a) = true
is_ok (err e) = false

-- `to_bytes` is `axum::body::to_bytes` of the request's body, under a limit.
unfoldable pub read_authorized_body :
    RouterConfig → Headers → (to_bytes : ℕ → Result String Bytes) → Result ApiFailure AuthorizedBody
unfolding request_id_from_headers
read_authorized_body config headers to_bytes = do
  let request_id = request_id_from_headers headers
  authorize config headers
  bytes ←
      or_failure
        (λ text.
          failure 400 "invalid_body" (String.◌++◌ "failed to read request body: " text) request_id)
        (to_bytes max_router_body_bytes)
  ok (record { request_id = request_id; bytes = bytes })

-- The response that is built of what an upstream sent. Its header values were values of headers, so
-- building it does not fail; nor is a status from 200 to 299 refused by `StatusCode::from_u16`.
abbrev pub relayed :
    UpstreamNodeConfig → AuthorizedBody → UpstreamResponse → Result ApiFailure Response
relayed upstream body response =
    if ltb response.status 200 || leb 300 response.status
    then err (
        failure 502 "upstream_error"
          (String.◌++◌ "LMML upstream " (
            String.◌++◌ upstream.name
              (String.◌++◌ " returned HTTP " (ascii_text (print_u64 response.status)))))
          body.request_id)
    else ok (record {
      status = response.status;
      content_type = response.content_type;
      request_id = body.request_id;
      node_id = response.upstream_node_id;
      body = response.bytes;
    })

abbrev pub received :
    UpstreamNodeConfig → AuthorizedBody → Sent → Result ApiFailure UpstreamResponse
received upstream body (responded response) = ok response
received upstream body (failed text) = err (
    failure 502 "upstream_request_failed"
      (String.◌++◌ "failed to call LMML upstream "
        (String.◌++◌ upstream.name (String.◌++◌ ": " text)))
      body.request_id)
received upstream body timed_out = err (
    failure 504 "upstream_timeout"
      (String.◌++◌ "LMML upstream " (String.◌++◌ upstream.name " timed out")) body.request_id)

abbrev pub request_of : UpstreamNodeConfig → (path : String) → AuthorizedBody → UpstreamRequest
request_of upstream path body = record {
  url = upstream_url upstream.base_url path;
  bearer_auth = upstream.api_key;
  request_id = body.request_id;
  body = body.bytes;
}

module _ (send : UpstreamRequest → Sent) where
  unfoldable pub call_upstream_inner :
      UpstreamNodeConfig → (path : String) → AuthorizedBody → Result ApiFailure Response
  call_upstream_inner upstream path body =
      received upstream body (send (request_of upstream path body)) >>= relayed upstream body

  unfoldable pub call_upstream :
      (meanwhile : RouterCounters → RouterCounters)
      → RouterCounters
      → UpstreamNodeConfig
      → (path : String) → AuthorizedBody
      → Result ApiFailure Response × RouterCounters
  call_upstream meanwhile counters upstream path body =
      let result = call_upstream_inner upstream path body in
      (
        result,
        finish_router_request (meanwhile (increment_router_running counters upstream.name))
            upstream.name (is_ok result),
      )
