-- ===== src/Router/Proxy/Routed.antt =====
-- What precedes a call of an upstream by `proxy_json_route` of crates/lmml-router/src/lib.rs.
use lmml.Base.{ℕ, String, ◌≡◌, ◌⊎◌, true, false, Option, some, List, Result, ok, In}
use lmml.Base.Int.{ℤ}
use lmml.Base.Text.{is_blank, utf8}
use lmml.Substrate.Disk.{Bytes}
use lmml.Substrate.Json.{Value}
use lmml.Api.Attestation.{AttestationPlatform}
use lmml.Router.Types.{UpstreamNodeConfig, RouterConfig, RouterCounters}
use lmml.Router.Config.{api_key}
use lmml.Router.Access.{Headers, bearer_token, api_key_header, authorize}
use lmml.Router.Selection.{approval_enforcement_enabled, requested_model, select_upstream}
use lmml.Router.Attested.{HealthAnswer, Asked, discover_upstreams}
use lmml.Router.Attested.Bound.{IsBound}
use lmml.Router.Proxy.{InferRequest, AuthorizedBody, max_router_body_bytes, request_id_from_headers}

-- What was read of a request that is authorized.
abbrev pub IsRead :
    RouterConfig → Headers → (to_bytes : ℕ → Result String Bytes) → AuthorizedBody → Type 0
IsRead config headers to_bytes body =
    (authorize config headers ≡ ok tt)
    × (to_bytes max_router_body_bytes ≡ ok body.bytes)
    × (body.request_id ≡ request_id_from_headers headers)

abbrev pub HasPrompt :
    (infer_request : Value → Result String InferRequest) → String → Value → Type 0
HasPrompt infer_request path value =
    path ≡ "/v1/infer"
    → (request : InferRequest) × (infer_request value ≡ ok request)
      × (is_blank request.prompt ≡ false)

module _ (p : AttestationPlatform) (var : String → Option String) (now : ℤ)
    (lowercase : String → String) (from_slice : Bytes → Result String Value)
    (infer_request : Value → Result String InferRequest) (config : RouterConfig) (headers : Headers)
    (to_bytes : ℕ → Result String Bytes) (path : String) (seen : RouterCounters)
    (answers : List Asked) where
  abbrev enforcement : Option String
  enforcement = var "LMML_APPROVAL_ENFORCEMENT"

  -- What holds of a call.
  pub record IsAllowed (upstream : UpstreamNodeConfig) (body : AuthorizedBody) : Type 0 where
    pub authorized :
        (expected : String)
        → api_key config ≡ some expected
        → (utf8 (bearer_token headers) ≡ utf8 expected)
          ⊎ (utf8 (api_key_header headers) ≡ utf8 expected)
    pub read : to_bytes max_router_body_bytes ≡ ok body.bytes
    pub value : Value
    pub parsed : from_slice body.bytes ≡ ok value
    pub prompt : HasPrompt infer_request path value
    pub selected :
        select_upstream lowercase
          (var "LMML_APPROVAL_ENFORCEMENT")
          seen
          path
          (requested_model path value)
          body.request_id
          (discover_upstreams p var now answers)
        ≡ ok upstream
    pub attested :
        approval_enforcement_enabled (var "LMML_APPROVAL_ENFORCEMENT") ≡ true
        → (asked : Asked) × In asked answers
          × (asked.0 ≡ upstream)
          × (response : HealthAnswer) × (asked.1.0 ≡ some response)
          × IsBound p var now response
