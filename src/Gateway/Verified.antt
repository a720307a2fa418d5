-- ===== src/Gateway/Verified.antt =====
-- What the files of an `ApprovalStore` of crates/lmml-gateway/src/lib.rs hold when its status approves.
use lmml.Base.{
  ok_inj, String, ◌≡◌, refl, ap, subst, ◌∙◌, false, Option, none, some, eq_iff, arith, Bool, ok,
  err, Result,
}
use lmml.Substrate.Types.{FilePath}
use lmml.Substrate.Errors.{SubstrateError}
use lmml.Substrate.Disk.{Disk, Os, World}
use lmml.Substrate.Disk.Chains.{Ensures-lift, Ensures-bind}
use lmml.Substrate.Approval.Types.{
  ApprovalDecision, AdmissionState, AdmissionStatus, ApprovalReceipt, RevocationState,
  ApprovalTrustRoot,
}
use lmml.Substrate.Approval.Platform.{ApprovalPlatform}
use lmml.Substrate.Approval.Contracts.{validate_approval_trust_root}
use lmml.Substrate.Approval.Signing.{verify_approval_receipt, verify_revocation_state}
use lmml.Substrate.Approval.Status.{compute_admission_status, is_receipt_revoked}
use lmml.Substrate.Approval.Status.Decisions.{is_approval-approved}
use lmml.Substrate.Approval.Loads.{
  load_approval_trust_root, load_approval_receipt, load_revocation_state,
}
use lmml.Gateway.Store.{ApprovalStore, told, read_revoked, current_status, read_status}
use lmml.Gateway.Loaded.{Holds, Loads, checked-Loads}

-- The three identities of the receipt are those of the store, and its decision approves them.
pub record Matches (store : ApprovalStore) (receipt : ApprovalReceipt) : Type 0 where
  pub decision : receipt.decision ≡ ApprovalDecision.approved
  pub prompt : receipt.prompt_configuration_hash ≡ store.prompt_hash
  pub runtime : receipt.runtime_configuration_hash ≡ store.runtime_hash
  pub deployment : receipt.deployment_manifest_hash ≡ store.deployment_hash

module _ (os : Os) (p : ApprovalPlatform) where
  -- The files of the store hold a trust root, a receipt that it signed and that approves the identities
  -- of the store, and, where the store names one, a revocation state that it signed too and that does
  -- not revoke the receipt.
  pub record Verified (store : ApprovalStore) (disk : Disk) : Type 0 where
    pub trust_root : ApprovalTrustRoot
    pub receipt : ApprovalReceipt
    pub root_file : Holds disk p.trust_root_codec store.trust_root_path trust_root
    pub receipt_file : Holds disk p.receipt_codec store.receipt_path receipt
    pub signed : verify_approval_receipt p receipt trust_root ≡ ok tt
    pub matches : Matches store receipt
    pub current :
        (path : FilePath)
        → store.revocation_state_path ≡ some path
        → (state : RevocationState) × Holds disk p.revocation_codec path state
          × (verify_revocation_state p state trust_root ≡ ok tt)
          × (is_receipt_revoked state receipt.receipt_id ≡ false)

  module _ (disk : Disk) where
    -- What the answer to "is it revoked" rests on.
    abbrev Answers : Option FilePath → ApprovalTrustRoot → (id : String) → Bool → Type 0
    Answers path root id b =
        (name : FilePath)
        → path ≡ some name
        → (state : RevocationState) × Holds disk p.revocation_codec name state
          × (verify_revocation_state p state root ≡ ok tt)
          × (is_receipt_revoked state id ≡ b)

    none-some : {A : Type 0} {a : A} → ◌≡◌ {A = Option A} none (some a) → ⊥
    none-some h = cc

    answer_of :
        (path : FilePath) (root : ApprovalTrustRoot) (id : String) (r b : Bool)
        (state : RevocationState)
        → Holds disk p.revocation_codec path state × (verify_revocation_state p state root ≡ ok tt)
        → r ≡ b
        → is_receipt_revoked state id ≡ r
        → Answers (some path) root id b
    answer_of path root id r b state k same e name named = (
      state,
      subst (λ q. Holds disk p.revocation_codec q state) (some_inj path name named) k.0,
      k.1,
      e ∙ same,
    )
      where
        some_inj : (a c : FilePath) → ◌≡◌ {A = Option FilePath} (some a) (some c) → a ≡ c
        some_inj a c h = cc

    revoked-Loads :
        (path : Option FilePath) (root : ApprovalTrustRoot) (id : String) (w : World)
        → w.disk ≡ disk
        → Loads disk (Answers path root id) (read_revoked os p path root id w)
    unfolding read_revoked load_revocation_state
    revoked-Loads none root id w same =
        Ensures-lift (ok false) w (λ b e. ((λ name h. absurd (none-some h)), same)) tt
    revoked-Loads (some path) root id w same =
        Ensures-bind (load_revocation_state os p path root) _ w
          (checked-Loads os p disk p.revocation_codec path
            (λ state. verify_revocation_state p state root) w same)
          λ state v k.
            Ensures-lift (ok (is_receipt_revoked state id)) v
              (λ b e. (
                answer_of path root id (is_receipt_revoked state id) b state k.0 (ok_inj _ b e)
                    refl,
                k.1,
              ))
              tt

    approved-Matches :
        (store : ApprovalStore) (receipt : ApprovalReceipt) (revoked : Bool)
        → (compute_admission_status
            (some receipt)
            store.prompt_hash
            store.runtime_hash
            store.deployment_hash
            revoked).state
          ≡ AdmissionState.approved
        → Matches store receipt × (revoked ≡ false)
    unfolding compute_admission_status
    approved-Matches store receipt revoked h = (
      record {
        decision = (is_approval-approved receipt.decision).0 (ground arith);
        prompt = (eq_iff receipt.prompt_configuration_hash store.prompt_hash).0 (ground arith);
        runtime = (eq_iff receipt.runtime_configuration_hash store.runtime_hash).0 (ground arith);
        deployment =
            (eq_iff receipt.deployment_manifest_hash store.deployment_hash).0 (ground arith);
      },
      ground arith,
    )

    current_status-Loads :
        (store : ApprovalStore) (w : World)
        → w.disk ≡ disk
        → Loads disk
            (λ status. status.state ≡ AdmissionState.approved → Verified store disk)
            (current_status os p store w)
    unfolding current_status load_approval_trust_root load_approval_receipt
    current_status-Loads store w same =
        Ensures-bind (load_approval_trust_root os p store.trust_root_path) _ w
          (checked-Loads os p disk p.trust_root_codec store.trust_root_path
            validate_approval_trust_root w same)
          λ root w1 h1.
            Ensures-bind (load_approval_receipt os p store.receipt_path root) _ w1
              (checked-Loads os p disk p.receipt_codec store.receipt_path
                (λ receipt. verify_approval_receipt p receipt root) w1 h1.1)
              λ receipt w2 h2.
                Ensures-bind (read_revoked os p store.revocation_state_path root receipt.receipt_id)
                  _ w2 (revoked-Loads store.revocation_state_path root receipt.receipt_id w2 h2.1)
                  λ revoked w3 h3.
                    Ensures-lift
                      (ok (
                        compute_admission_status (some receipt) store.prompt_hash store.runtime_hash
                          store.deployment_hash revoked))
                      w3
                      (λ status e. (verified root receipt revoked status h1.0.0 h2.0 h3.0 e, h3.1))
                      tt
      where
        verified :
            (root : ApprovalTrustRoot) (receipt : ApprovalReceipt) (revoked : Bool)
            (status : AdmissionStatus)
            → Holds disk p.trust_root_codec store.trust_root_path root
            → Holds disk p.receipt_codec store.receipt_path receipt
              × (verify_approval_receipt p receipt root ≡ ok tt)
            → Answers store.revocation_state_path root receipt.receipt_id revoked
            → ◌≡◌ {A = Result SubstrateError AdmissionStatus}
                (ok (
                  compute_admission_status
                    (some receipt)
                    store.prompt_hash
                    store.runtime_hash
                    store.deployment_hash
                    revoked))
                (ok status)
            → status.state ≡ AdmissionState.approved
            → Verified store disk
        verified root receipt revoked status file1 file2 answers e h =
            let made = ok_inj _ status e in
            let (matches, not_revoked) =
              approved-Matches store receipt revoked
                (ap (λ (s : AdmissionStatus). s.state) made ∙ h) in
            record {
              trust_root = root;
              receipt = receipt;
              root_file = file1;
              receipt_file = file2.0;
              signed = file2.1;
              matches = matches;
              current = λ path named.
                  let (state, held, ok_state, told) = answers path named in
                  (state, held, ok_state, told ∙ not_revoked);
            }

  -- Where the status that is read approves, the files of the store show it.
  pub read_status-Verified :
      (to_string : SubstrateError → String) (store : ApprovalStore) (w : World)
      (status : AdmissionStatus)
      → (read_status os p to_string store w).0 ≡ ok status
      → status.state ≡ AdmissionState.approved
      → Verified store w.disk
  unfolding read_status
  read_status-Verified to_string store w status h =
      ((current_status-Loads w.disk store w refl).returned status
        (told_ok (current_status os p store w) h)).0
    where
      told_ok :
          (out : Result SubstrateError AdmissionStatus × World)
          → (told to_string out).0 ≡ ok status
          → out.0 ≡ ok status
      told_ok (ok s, v) e = cc
      told_ok (err x, v) e = cc
