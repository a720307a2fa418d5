-- ===== src/Substrate/Approval/Status.antt =====
-- Current admission: `compute_admission_status` and `is_receipt_revoked` of
-- crates/lmml-substrate/src/approval.rs.
pub mod Decisions
use lmml.Base.{
  ◌-◌, ◌/◌, String, Bool, true, false, not, Option, none, some, ◌==◌, if◌then◌else◌, any,
}
use lmml.Substrate.Types.{Hash256}
use lmml.Substrate.Approval.Types.{
  ApprovalDecision, approved, rejected, AdmissionState, AdmissionStatus, ApprovalReceipt,
  RevocationEvent, RevocationState,
}

abbrev pub is_approval : ApprovalDecision → Bool
is_approval ApprovalDecision.approved = true
is_approval ApprovalDecision.rejected = false

abbrev status : AdmissionState → String → AdmissionStatus
status state reason = record { state = state; reason = reason }

unfoldable pub decide_admission :
    ApprovalReceipt → (prompt_hash runtime_hash deployment_hash : Hash256) → Bool → AdmissionStatus
decide_admission receipt prompt_hash runtime_hash deployment_hash is_revoked =
    if is_revoked
    then status AdmissionState.revoked "approval receipt was revoked"
    else if not (is_approval receipt.decision)
    then status AdmissionState.rejected "approval receipt rejected the configuration"
    else if not (receipt.prompt_configuration_hash == prompt_hash)
    then status AdmissionState.invalidated "prompt configuration identity changed"
    else if not (receipt.runtime_configuration_hash == runtime_hash)
    then status AdmissionState.invalidated "runtime configuration identity changed"
    else if not (receipt.deployment_manifest_hash == deployment_hash)
    then status AdmissionState.invalidated "deployment identity changed"
    else status AdmissionState.approved "signed approval matches current identities"

unfoldable pub compute_admission_status :
    Option ApprovalReceipt
    → (prompt_hash runtime_hash deployment_hash : Hash256) → Bool
    → AdmissionStatus
unfolding decide_admission
compute_admission_status none prompt_hash runtime_hash deployment_hash is_revoked =
    status AdmissionState.unknown "no approval receipt"
compute_admission_status (some receipt) prompt_hash runtime_hash deployment_hash is_revoked =
    decide_admission receipt prompt_hash runtime_hash deployment_hash is_revoked

unfoldable pub is_receipt_revoked : RevocationState → String → Bool
is_receipt_revoked state receipt_id =
    any (λ (event : RevocationEvent). event.receipt_id == receipt_id) state.events
