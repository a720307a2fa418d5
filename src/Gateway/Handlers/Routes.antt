-- ===== src/Gateway/Handlers/Routes.antt =====
-- `health`, `models`, `chat_completions` and `forward_response` of crates/lmml-gateway/src/lib.rs.
use mathlib.Core.Option.{bind}
use lmml.Base.{
  ℕ, String, Bool, true, false, not, ◌||◌, Option, none, some, List, [], ◌∷◌, if◌then◌else◌, Result,
  ok, err, ◌>>=◌, ◌>>◌, reject_if,
}
use lmml.Base.Int.{pos, to_i64, add_i64}
use lmml.Substrate.Errors.{SubstrateError}
use lmml.Substrate.Disk.{Bytes}
use lmml.Substrate.Json.{Value, string, object, end, field}
use lmml.Substrate.Approval.Types.{RequestPromptSchema, AdmissionState, AdmissionStatus}
use lmml.Substrate.Approval.Policy.{validate_prompt_request}
use lmml.Api.Attestation.{
  AttestationPlatform, Attested, GatewayAttestationClaims, sign_gateway_attestation,
}
use lmml.Gateway.Admission.{is_approved}
use lmml.Gateway.Handlers.{
  GatewayConfig, Response, BackendRequest, Sent, responded, failed, timed_out, error_response,
  authorize, backend_headers, backend_path, admission_response,
}

-- The claims of a gateway that has an identity, at a time in seconds.
unfoldable pub claims_of :
    GatewayConfig
    → (gateway_id deployment_hash receipt_id : String) → (now : ℕ) → GatewayAttestationClaims
claims_of config gateway_id deployment_hash receipt_id now = record {
  schema_version = 1;
  gateway_id = gateway_id;
  deployment_hash = deployment_hash;
  receipt_id = receipt_id;
  receipt_sequence = config.receipt_sequence;
  revocation_epoch = config.revocation_epoch;
  issued_at_unix = pos now;
  expires_at_unix = add_i64 (pos now) (to_i64 config.attestation_ttl);
}

abbrev pub attested : Attested String → Option String
attested (ok text) = some text
attested (err e) = none

unfoldable pub attestation_header : AttestationPlatform → GatewayConfig → (now : ℕ) → Option String
unfolding claims_of
attestation_header p config now = bind config.attestation_private_key λ key.
    bind config.gateway_id λ gateway_id. bind config.deployment_hash λ deployment_hash.
      bind config.receipt_id λ receipt_id. attested (
        sign_gateway_attestation p (claims_of config gateway_id deployment_hash receipt_id now) key)

abbrev health_json : Value
health_json = object (field "status" (string "ok") (field "gateway" (string "lmml") end))

abbrev healthy : (enforced : Bool) → Option String → Response
healthy enforced (some attestation) = record {
  status = 200;
  headers = ("x-lmml-gateway", "approved") ∷ ("x-lmml-gateway-attestation", attestation) ∷ [];
  json = health_json;
}
healthy true none = error_response 503 "approved gateway has no signed attestation configuration"
healthy false none = record {
  status = 200;
  headers = ("x-lmml-gateway", "approved") ∷ [];
  json = health_json;
}

-- `status` is what `state.admission.status()` answers; `enforced` is `approval_enforcement_enabled()`.
unfoldable pub health :
    AttestationPlatform → GatewayConfig → (now : ℕ) (enforced : Bool) → AdmissionStatus → Response
unfolding attestation_header
health p config now enforced status =
    if is_approved status.state
    then healthy enforced (attestation_header p config now)
    else record {
      status = 503;
      headers = [];
      json =
          object
            (field "status" (string "unavailable") (field "reason" (string status.reason) end));
    }

abbrev pub bad_request :
    {A : Type 0} → (SubstrateError → String) → Result SubstrateError A → Result Response A
bad_request to_string (ok a) = ok a
bad_request to_string (err e) = err (error_response 400 (to_string e))

abbrev pub parsed : Result String Value → Result Response Value
parsed (ok value) = ok value
parsed (err text) = err (error_response 400 text)

abbrev pub not_too_large : Result String Bytes → Result Response Bytes
not_too_large (ok body) = ok body
not_too_large (err text) = err (error_response 413 text)

module _ (name : AdmissionState → String) (header_text : String → Bool) where
  -- What `/v1/models` asks of the backend.
  unfoldable pub models_request :
      GatewayConfig
      → (authorization : Option String) → AdmissionStatus
      → Result Response BackendRequest
  models_request config authorization status = do
    authorize config authorization
    reject_if (not (is_approved status.state)) (admission_response name status)
    ok (record {
      url = backend_path config "/v1/models";
      authorization = backend_headers config header_text;
      body = none;
    })

  -- What `/v1/chat/completions` asks of the backend. `to_bytes` is `axum::body::to_bytes` of the body of the
  -- request, under a limit.
  unfoldable pub chat_request :
      (from_slice : Bytes → Result String Value) (to_vec : Value → Option Bytes)
      (to_string : SubstrateError → String)
      → GatewayConfig
      → RequestPromptSchema
      → (authorization : Option String) → AdmissionStatus
      → (to_bytes : ℕ → Result String Bytes) → Result Response BackendRequest
  chat_request from_slice to_vec to_string config schema authorization status to_bytes = do
    authorize config authorization
    reject_if (not (is_approved status.state)) (admission_response name status)
    body ← not_too_large (to_bytes config.max_body_bytes)
    value ← parsed (from_slice body)
    bad_request to_string (validate_prompt_request schema to_vec value)
    ok (record {
      url = backend_path config "/v1/chat/completions";
      authorization = backend_headers config header_text;
      body = some body;
    })

-- The response to what was sent.
unfoldable pub relay : {A : Type 0} → Sent A → Result Response A
relay (responded response) = ok response
relay (failed text) = err (error_response 502 text)
relay timed_out = err (error_response 504 "backend request timed out")

-- What one turn of the loop of `forward_response` meets: whether the deadline has passed, the status before
-- the wait, what came within it, and the status after it.
pub data Chunk : Type 0 where
  bytes : Bytes → Chunk
  end_of_body waiting : Chunk
  broken : (message : String) → Chunk

pub record Turn : Type 0 where
  pub is_late : Bool
  pub before : AdmissionStatus
  pub chunk : Chunk
  pub after : AdmissionStatus

abbrev pub turn_chunks :
    Chunk
    → (still_approved : Bool) → (rest : List (Result String Bytes)) → List (Result String Bytes)
turn_chunks (bytes chunk) true rest = ok chunk ∷ rest
turn_chunks (bytes chunk) false rest = []
turn_chunks end_of_body still_approved rest = []
turn_chunks waiting still_approved rest = rest
turn_chunks (broken text) still_approved rest = err text ∷ rest

-- The chunks that the client gets, and the errors in between; after an error the stream is polled again.
unfoldable pub stream_chunks : List Turn → List (Result String Bytes)
stream_chunks [] = []
stream_chunks (turn ∷ turns) =
    let rest = stream_chunks turns in
    if turn.is_late || not (is_approved turn.before.state)
    then []
    else turn_chunks turn.chunk (is_approved turn.after.state) rest
