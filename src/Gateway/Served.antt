-- ===== src/Gateway/Served.antt =====
-- A chat request of crates/lmml-gateway/src/lib.rs in a run of the gateway's admission.
use lmml.Base.{ℕ, String, ◌≡◌, refl, Bool, true, Option, some, List, ◌≢◌, Result, ok, In}
use lmml.Substrate.Errors.{SubstrateError}
use lmml.Substrate.Disk.{Bytes, Os, World}
use lmml.Substrate.Json.{Value}
use lmml.Substrate.Approval.Types.{RequestPromptSchema, AdmissionState, AdmissionStatus}
use lmml.Substrate.Approval.Platform.{ApprovalPlatform}
use lmml.Gateway.Store.{ApprovalStore}
use lmml.Gateway.Verified.{Verified}
use lmml.Gateway.Admission.{GatewayAdmission, answered, is_approved, System, quiet, Reach}
use lmml.Gateway.Admission.Fresh.{status-Verified}
use lmml.Gateway.Handlers.{GatewayConfig, BackendRequest}
use lmml.Gateway.Handlers.Routes.{chat_request}
use lmml.Gateway.Handlers.Forwarded.{Forwarded, chat_request-Forwarded}

is_approved_eq :
    (state : AdmissionState) → is_approved state ≡ true → state ≡ AdmissionState.approved
is_approved_eq AdmissionState.approved h = refl
is_approved_eq AdmissionState.unknown h = cc
is_approved_eq AdmissionState.extracted h = cc
is_approved_eq AdmissionState.needs_review h = cc
is_approved_eq AdmissionState.rejected h = cc
is_approved_eq AdmissionState.blocked h = cc
is_approved_eq AdmissionState.revoked h = cc
is_approved_eq AdmissionState.invalidated h = cc
is_approved_eq AdmissionState.runtime_verified h = cc

module _ (os : Os) (p : ApprovalPlatform) (to_string : SubstrateError → String)
    (name : AdmissionState → String) (header_text : String → Bool)
    (from_slice : Bytes → Result String Value) (to_vec : Value → Option Bytes)
    (initial : GatewayAdmission) (config : GatewayConfig) (schema : RequestPromptSchema) where
  -- Where the first status does not approve, and however the calls of the admission interleave:
  -- with the answer of a call of `status`, a chat request is sent to the backend only if the client
  -- sent the key of the gateway, where the gateway has one, the body is JSON that
  -- `validate_prompt_request` accepts, and the files of the store, at some reading during the run,
  -- held a receipt that is signed, approves the identities of the store and is not revoked. The
  -- backend gets that body, with the headers that the gateway has for it.
  pub chat_request-served :
      {worlds : List World} {s : System} (i : ℕ) (status : AdmissionStatus)
      (authorization : Option String) (to_bytes : ℕ → Result String Bytes) (asked : BackendRequest)
      → initial.status.state ≢ AdmissionState.approved
      → Reach os p to_string name (quiet initial) worlds s
      → s.pc i ≡ answered status
      → chat_request name header_text from_slice to_vec to_string config schema authorization status
          to_bytes
        ≡ ok asked
      → Forwarded name header_text from_slice to_vec to_string config schema authorization status
          to_bytes asked
        × ((store : ApprovalStore) × (initial.store ≡ some store)
            × (w : World) × In w worlds
            × Verified os p store w.disk)
  chat_request-served i status authorization to_bytes asked blocked_first run at h =
      let forwarded =
        chat_request-Forwarded name header_text from_slice to_vec to_string config schema
          authorization status to_bytes asked h in
      (
        forwarded,
        status-Verified os p to_string name initial i status blocked_first run at
            (is_approved_eq status.state forwarded.approved),
      )
