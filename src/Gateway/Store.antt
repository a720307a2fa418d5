-- ===== src/Gateway/Store.antt =====
-- `ApprovalStore` of crates/lmml-gateway/src/lib.rs: the admission status as the signed files have it.
use lmml.Base
use lmml.Base.{
  String, ◌≡◌, refl, inl, inr, true, false, Option, none, some, ◌==◌, eq_iff, arith, Bool,
  Bool-cases,
}
use lmml.Substrate.Types.{FilePath, Hash256}
use lmml.Substrate.Errors.{SubstrateError}
use lmml.Substrate.Disk.{Os, World, Action, ◌>>=◌, lift}
use lmml.Substrate.Approval.Types.{AdmissionStatus, ApprovalTrustRoot}
use lmml.Substrate.Approval.Platform.{ApprovalPlatform}
use lmml.Substrate.Approval.Status.{compute_admission_status, is_receipt_revoked}
use lmml.Substrate.Approval.Loads.{
  load_approval_trust_root, load_approval_receipt, load_revocation_state,
}

pub record ApprovalStore : Type 0 where
  pub receipt_path : FilePath
  pub trust_root_path : FilePath
  pub revocation_state_path : Option FilePath
  pub prompt_hash : Hash256
  pub runtime_hash : Hash256
  pub deployment_hash : Hash256

-- `to_string` of an error.
abbrev pub told :
    (SubstrateError → String)
    → Base.Result SubstrateError AdmissionStatus × World
    → Base.Result String AdmissionStatus × World
told to_string (Base.ok status, w) = (Base.ok status, w)
told to_string (Base.err e, w) = (Base.err (to_string e), w)

module _ (os : Os) (p : ApprovalPlatform) where
  unfoldable pub read_revoked :
      Option FilePath → ApprovalTrustRoot → (receipt_id : String) → Action Bool
  read_revoked none trust_root receipt_id = lift (Base.ok false)
  read_revoked (some path) trust_root receipt_id = do
    state ← load_revocation_state os p path trust_root
    lift (Base.ok (is_receipt_revoked state receipt_id))

  unfoldable pub current_status : ApprovalStore → Action AdmissionStatus
  unfolding read_revoked
  current_status store = do
    trust_root ← load_approval_trust_root os p store.trust_root_path
    receipt ← load_approval_receipt os p store.receipt_path trust_root
    revoked ← read_revoked store.revocation_state_path trust_root receipt.receipt_id
    lift (
        Base.ok (
          compute_admission_status (some receipt) store.prompt_hash store.runtime_hash
            store.deployment_hash revoked))

  unfoldable pub read_status :
      (to_string : SubstrateError → String)
      → ApprovalStore
      → World
      → Base.Result String AdmissionStatus × World
  unfolding current_status
  read_status to_string store w = told to_string (current_status store w)
