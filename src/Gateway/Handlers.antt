-- ===== src/Gateway/Handlers.antt =====
-- The routes of crates/lmml-gateway/src/lib.rs. A route is what it asks of the backend or the response
-- that it gives at once; `send` then is the call of `reqwest` under its timeout.
pub mod Routes
pub mod Forwarded
pub mod Health
use Prim.Native.String
use lmml.Base.{
  ℕ, ◌+◌, ◌-◌, ◌/◌, String, Bool, true, false, not, ◌&&◌, ◌||◌, Option, none, some, List, [], ◌∷◌,
  ◌==◌, ltb, eqb, if◌then◌else◌, is_some, length, Result, ok, err, ◌>>=◌, ◌>>◌, reject_if,
}
use lmml.Base.Int.{pos, to_i64, add_i64}
use lmml.Base.Text.{is_blank, strip_prefix, drop_end}
use lmml.Substrate.Errors.{SubstrateError}
use lmml.Substrate.Disk.{Bytes}
use lmml.Substrate.Json.{Value, string, object, end, field}
use lmml.Substrate.Approval.Types.{RequestPromptSchema, AdmissionState, AdmissionStatus}
use lmml.Substrate.Approval.Policy.{validate_prompt_request}
use lmml.Api.Attestation.{
  AttestationPlatform, Attested, GatewayAttestationClaims, sign_gateway_attestation,
}
use lmml.Gateway.Admission.{is_approved}

-- A duration is its whole seconds. `listen` and `request_timeout` are left out.
pub record GatewayConfig : Type 0 where
  pub backend_url : String
  pub max_body_bytes : ℕ
  pub api_key : Option String
  pub backend_api_key : Option String
  pub gateway_id : Option String
  pub deployment_hash : Option String
  pub receipt_id : Option String
  pub receipt_sequence : ℕ
  pub revocation_epoch : ℕ
  pub attestation_private_key : Option Bytes
  pub attestation_ttl : ℕ

-- A URL as the crate `url` takes it apart.
pub record Url : Type 0 where
  pub scheme : String
  pub host_str : Option String
  pub username : String
  pub password : Option String
  pub query : Option String
  pub fragment : Option String

pub record Response : Type 0 where
  pub status : ℕ
  pub headers : List (String × String)
  pub json : Value

pub record BackendRequest : Type 0 where
  pub url : String
  pub authorization : Option String
  pub body : Option Bytes

pub data Sent (A : Type 0) : Type 0 where
  responded : A → Sent A
  failed : (message : String) → Sent A
  timed_out : Sent A

abbrev text_field : String → String → Value
text_field key text = object (field key (string text) end)

unfoldable pub error_response : (status : ℕ) → String → Response
error_response status message = record {
  status = status;
  headers = [];
  json = text_field "error" message;
}

abbrev private_host : Option String → Bool
private_host none = false
private_host (some host) = (host == "localhost") || (host == "127.0.0.1") || (host == "::1")

abbrev is_empty_text : Option String → Bool
is_empty_text none = false
is_empty_text (some text) = text == ""

-- The checks of `GatewayState::new`, with the text of `InvalidConfiguration`.
unfoldable pub check_config :
    (parse : String → Result String Url) → GatewayConfig → Result String (Unit {0})
check_config parse config = do
  reject_if (is_blank config.backend_url) "backend_url is empty"
  backend ← parse config.backend_url
  reject_if
      (not (backend.scheme == "http")
        || not (private_host backend.host_str)
        || not (backend.username == "")
        || is_some backend.password
        || is_some backend.query
        || is_some backend.fragment)
      "backend_url must be an unauthenticated loopback HTTP URL"
  reject_if (eqb config.max_body_bytes 0) "max_body_bytes must be positive"
  reject_if (is_empty_text config.backend_api_key) "backend_api_key must not be empty"

-- `supplied != Some(expected)`
abbrev pub is_text : Option String → String → Bool
is_text none expected = false
is_text (some text) expected = text == expected

abbrev pub bearer : Option String → Option String
bearer none = none
bearer (some text) = strip_prefix "Bearer " text

-- `authorization` is the header of that name, if it is a text.
unfoldable pub authorize :
    GatewayConfig → (authorization : Option String) → Result Response (Unit {0})
unfolding error_response
authorize config authorization = elim config.api_key [
  | none ↦ ok tt
  | some expected ↦
      reject_if (not (is_text (bearer authorization) expected))
        (error_response 401 "missing or invalid bearer token")
]

unfoldable pub backend_headers : GatewayConfig → (header_text : String → Bool) → Option String
backend_headers config header_text = elim config.backend_api_key [
  | none ↦ none
  | some api_key ↦
      let text = String.◌++◌ "Bearer " api_key in if header_text text then some text else none
]

abbrev pub backend_path : GatewayConfig → String → String
backend_path config path = String.◌++◌ (drop_end (eqb b'/') config.backend_url) path

-- `name` prints a state as `{:?}` does.
unfoldable pub admission_response : (name : AdmissionState → String) → AdmissionStatus → Response
unfolding error_response
admission_response name status = error_response 503 (
    String.◌++◌ "runtime admission is "
      (String.◌++◌ (name status.state) (String.◌++◌ ": " status.reason)))
