-- ===== src/Gateway/Tests.antt =====
-- A gateway with the files of one approval, its calls in some orders, and its routes.
pub mod Runs
mod Revocations
mod Requests
pub mod Attested
use lmml.Base
use lmml.Base.{
  ℕ, String, ◌≡◌, refl, true, false, Option, none, some, List, [], ◌∷◌, ◌==◌, eqb, if◌then◌else◌,
}
use lmml.Base.Text.{is_blank, utf8}
use lmml.Substrate.Types.{FilePath}
use lmml.Substrate.Errors.{SubstrateError}
use lmml.Substrate.Disk.{Bytes, bytes_eq, Os, World, ◌>>=◌, lift, read_required}
use lmml.Substrate.Approval.Types.{AdmissionState, AdmissionStatus}
use lmml.Substrate.Approval.Platform.{Codec, ApprovalPlatform}
use lmml.Substrate.Approval.Tests.{platform, hash, trust_root, receipt, state, calm_os}
use lmml.Substrate.Approval.Hex.{hex_decode, byte_value}
use lmml.Substrate.Approval.Json.{canonical_value}
use lmml.Substrate.Approval.Contracts.{
  validate_approval_trust_root, require_text, validate_receipt_fields, validate_timestamp,
}
use lmml.Substrate.Approval.Signing.{
  verify_approval_receipt, verify_payload, receipt_payload, canonical_json, domain_bytes,
  domain_hash, check_events, revocation_payload, revocation_state_hash, validate_revocation_state,
  verify_revocation_state,
}
use lmml.Substrate.Approval.Status.{compute_admission_status, is_receipt_revoked}
use lmml.Substrate.Approval.Loads.{
  load_json, load_approval_trust_root, load_approval_receipt, load_revocation_state,
}
use lmml.Gateway.Store.{ApprovalStore, read_revoked, current_status, read_status}

-- One byte stands for the JSON text of each record.
abbrev reads : {A : Type 0} → ℕ → A → Codec A → Codec A
reads byte a codec = record codec {
  from_slice = λ bytes. if bytes_eq bytes (byte ∷ []) then some a else none;
}

abbrev pub gateway_platform : ApprovalPlatform
gateway_platform = record platform {
  trust_root_codec = reads 1 trust_root platform.trust_root_codec;
  receipt_codec = reads 2 receipt platform.receipt_codec;
  revocation_codec = reads 3 state platform.revocation_codec;
}

abbrev pub store : ApprovalStore
store = record {
  receipt_path = "/receipt";
  trust_root_path = "/root";
  revocation_state_path = some "/revocations";
  prompt_hash = hash;
  runtime_hash = hash;
  deployment_hash = hash;
}

abbrev pub world : World
world = record {
  disk = λ q.
      if q == "/root"
      then some (1 ∷ [])
      else if q == "/receipt"
      then some (2 ∷ [])
      else if q == "/revocations"
      then some (3 ∷ [])
      else none;
  calls = 0;
}

abbrev pub approved_status : AdmissionStatus
approved_status = record {
  state = AdmissionState.approved;
  reason = "signed approval matches current identities";
}

abbrev pub told : SubstrateError → String
told e = "error"

pub read_approved :
    (read_status calm_os gateway_platform told store world).0 ≡ Base.ok approved_status
unfolding read_status current_status read_revoked ◌>>=◌ lift read_required load_json
    load_approval_trust_root load_approval_receipt load_revocation_state
    validate_approval_trust_root require_text is_blank hex_decode utf8 byte_value
    verify_approval_receipt validate_receipt_fields validate_timestamp verify_payload
    receipt_payload canonical_value canonical_json domain_bytes domain_hash check_events
    revocation_payload revocation_state_hash validate_revocation_state verify_revocation_state
    compute_admission_status is_receipt_revoked
read_approved = refl
