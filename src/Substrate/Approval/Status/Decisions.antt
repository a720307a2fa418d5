-- ===== src/Substrate/Approval/Status/Decisions.antt =====
-- When a receipt admits a configuration by crates/lmml-substrate/src/approval.rs, and the order of the
-- revocation events.
use lmml.Base.{
  ℕ, ◌<◌, ◌≡◌, refl, ◌≢◌, ◌↔◌, inl, inr, true, false, some, List, [], ◌∷◌, arith, ◌==◌, eq_iff,
  Bool-cases, In, here, there, Pairwise, any-In, any-none, ok, Result-cases,
}
use lmml.Substrate.Types.{Hash256}
use lmml.Substrate.Approval.Types.{
  ApprovalDecision, AdmissionState, AdmissionStatus, ApprovalReceipt, RevocationEvent,
  RevocationState, ApprovalTrustRoot,
}
use lmml.Substrate.Approval.Platform.{ApprovalPlatform}
use lmml.Substrate.Approval.Signing.{
  revocation_state_hash, check_events, validate_revocation_state, verify_revocation_state,
}
use lmml.Substrate.Approval.Status.{is_approval, compute_admission_status, is_receipt_revoked}

-- The receipt approves exactly these identities, and the state names no revocation of it.
pub record Approves (state : RevocationState) (prompt_hash runtime_hash deployment_hash : Hash256)
    (receipt : ApprovalReceipt) : Type 0 where
  pub decision : receipt.decision ≡ ApprovalDecision.approved
  pub prompt : receipt.prompt_configuration_hash ≡ prompt_hash
  pub runtime : receipt.runtime_configuration_hash ≡ runtime_hash
  pub deployment : receipt.deployment_manifest_hash ≡ deployment_hash
  pub not_revoked :
      (event : RevocationEvent) → In event state.events → event.receipt_id ≢ receipt.receipt_id

pub is_approval-approved :
    (d : ApprovalDecision) → (is_approval d ≡ true) ↔ (d ≡ ApprovalDecision.approved)
is_approval-approved ApprovalDecision.approved = ((λ h. refl), λ h. refl)
is_approval-approved ApprovalDecision.rejected = ((λ h. cc), λ h. cc)

module _ (state : RevocationState) (receipt : ApprovalReceipt) where
  revoked-In :
      is_receipt_revoked state receipt.receipt_id ≡ true
      → (event : RevocationEvent) × In event state.events × (event.receipt_id ≡ receipt.receipt_id)
  unfolding is_receipt_revoked
  revoked-In h =
      let (event, i, e) =
        any-In (λ (event : RevocationEvent). event.receipt_id == receipt.receipt_id) state.events
          h in
      (event, i, (eq_iff event.receipt_id receipt.receipt_id).0 e)

  not_revoked-In :
      is_receipt_revoked state receipt.receipt_id ≡ false
      → (event : RevocationEvent) → In event state.events
      → event.receipt_id ≢ receipt.receipt_id
  unfolding is_receipt_revoked
  not_revoked-In h event i same =
      let other =
        any-none (λ (e : RevocationEvent). e.receipt_id == receipt.receipt_id) state.events h event
          i in
      ground (arith, other, eq_iff event.receipt_id receipt.receipt_id, same)

  module _ (prompt_hash runtime_hash deployment_hash : Hash256) where
    abbrev current : AdmissionStatus
    current =
        compute_admission_status (some receipt) prompt_hash runtime_hash deployment_hash
          (is_receipt_revoked state receipt.receipt_id)

    approved-Approves :
        current.state ≡ AdmissionState.approved
        → Approves state prompt_hash runtime_hash deployment_hash receipt
    unfolding compute_admission_status
    approved-Approves h = record {
      decision = (is_approval-approved receipt.decision).0 (ground arith);
      prompt = (eq_iff receipt.prompt_configuration_hash prompt_hash).0 (ground arith);
      runtime = (eq_iff receipt.runtime_configuration_hash runtime_hash).0 (ground arith);
      deployment = (eq_iff receipt.deployment_manifest_hash deployment_hash).0 (ground arith);
      not_revoked = not_revoked-In (ground arith);
    }

    Approves-approved :
        Approves state prompt_hash runtime_hash deployment_hash receipt
        → current.state ≡ AdmissionState.approved
    unfolding compute_admission_status
    Approves-approved a = elim (Bool-cases (is_receipt_revoked state receipt.receipt_id)) [
      | inl e ↦ let (event, i, same) = revoked-In e in absurd (a.not_revoked event i same)
      | inr e ↦ rw e (
          rw ((is_approval-approved receipt.decision).1 a.decision) (
            rw ((eq_iff receipt.prompt_configuration_hash prompt_hash).1 a.prompt) (
              rw ((eq_iff receipt.runtime_configuration_hash runtime_hash).1 a.runtime) (
                rw ((eq_iff receipt.deployment_manifest_hash deployment_hash).1 a.deployment)
                  refl))))
    ]

    -- Against a revocation state, a receipt is approved exactly where its decision approves, the three
    -- identities are the current ones, and no event of the state names it.
    pub compute_admission_status-Approves :
        ((compute_admission_status
            (some receipt)
            prompt_hash
            runtime_hash
            deployment_hash
            (is_receipt_revoked state receipt.receipt_id)).state
          ≡ AdmissionState.approved)
        ↔ Approves state prompt_hash runtime_hash deployment_hash receipt
    compute_admission_status-Approves = (approved-Approves, Approves-approved)

abbrev Later : RevocationEvent → RevocationEvent → Type 0
Later a b = a.sequence < b.sequence

module _ (p : ApprovalPlatform) where
  check_events-ordered :
      (previous : ℕ) (events : List RevocationEvent)
      → check_events p previous events ≡ ok tt
      → ((event : RevocationEvent) → In event events → previous < event.sequence)
        × Pairwise Later events
  unfolding check_events
  check_events-ordered previous [] h = ((λ event i. elim i [ ]), tt)
  check_events-ordered previous (event ∷ events) h =
      let next : previous < event.sequence = ground arith in
      let rest : check_events p event.sequence events ≡ ok tt = ground arith in
      let (after, ordered) = check_events-ordered event.sequence events rest in
      (above event events next after, (after, ordered))
    where
      above :
          (event : RevocationEvent) (events : List RevocationEvent)
          → previous < event.sequence
          → ((later : RevocationEvent) → In later events → event.sequence < later.sequence)
          → (later : RevocationEvent) → In later (event ∷ events)
          → previous < later.sequence
      above event events next after later (here e) = rw e next
      above event events next after later (there i) = omega (arith, after later i)

  state_checked :
      (state : RevocationState) (trust_root : ApprovalTrustRoot)
      → verify_revocation_state p state trust_root ≡ ok tt
      → (check_events p 0 state.events ≡ ok tt)
        × (revocation_state_hash p state.epoch state.events ≡ ok state.state_hash)
  unfolding verify_revocation_state validate_revocation_state
  state_checked state trust_root h =
      elim (Result-cases (revocation_state_hash p state.epoch state.events)) [
        | inl (hash, e) ↦ (ground (arith, e), ground (arith, e, eq_iff hash state.state_hash))
        | inr (x, e) ↦ ground (arith, e)
      ]

  -- The events of a revocation state that is accepted have positive, strictly increasing sequence
  -- numbers, and the state carries the digest of its epoch and events.
  pub verify_revocation_state-ordered :
      (state : RevocationState) (trust_root : ApprovalTrustRoot)
      → verify_revocation_state p state trust_root ≡ ok tt
      → ((event : RevocationEvent) → In event state.events → 0 < event.sequence)
        × Pairwise (λ (a b : RevocationEvent). a.sequence < b.sequence) state.events
        × (revocation_state_hash p state.epoch state.events ≡ ok state.state_hash)
  verify_revocation_state-ordered state trust_root h =
      let (events, hash) = state_checked state trust_root h in
      let (positive, ordered) = check_events-ordered 0 state.events events in
      (positive, ordered, hash)
