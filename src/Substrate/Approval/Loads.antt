-- ===== src/Substrate/Approval/Loads.antt =====
-- What crates/lmml-substrate/src/approval.rs loads, and the bundles, which it stores once.
use Prim.Native.String
use lmml.Base
use lmml.Base.{◌+◌, ◌-◌, ◌/◌, String, Bool, Option, none, some, List, [], ◌∷◌, ◌++◌}
use lmml.Substrate.Types.{FilePath}
use lmml.Substrate.Errors.{
  already_exists, approval_rollback, approval_conflict, io, invalid_json, Checked,
}
use lmml.Substrate.Disk.{
  Os, Action, ◌>>=◌, ◌>>◌, lift, attempt, read_required, Published, published, refused, parent_of,
}
use lmml.Substrate.Approval.Types.{
  ApprovalBundle, ApprovalReceipt, RevocationState, ApprovalTrustRoot,
}
use lmml.Substrate.Approval.Platform.{Codec, ApprovalPlatform}
use lmml.Substrate.Approval.Contracts.{validate_approval_bundle, validate_approval_trust_root}
use lmml.Substrate.Approval.Signing.{
  canonical_json, verify_approval_receipt, verify_revocation_state,
}
use lmml.Substrate.Approval.Files.{write_all, open_new, make_read_only}

module _ (os : Os) (p : ApprovalPlatform) where
  -- `fs::read` and `serde_json::from_slice`
  unfoldable pub load_json : {A : Type 0} → Codec A → FilePath → Action A
  load_json codec path = do
    bytes ← read_required os path
    lift (Base.ok_or (codec.from_slice bytes) (invalid_json path))

  unfoldable pub load_approval_trust_root : FilePath → Action ApprovalTrustRoot
  load_approval_trust_root path = do
    trust_root ← load_json p.trust_root_codec path
    lift (validate_approval_trust_root trust_root)
    lift (Base.ok trust_root)

  unfoldable pub load_approval_receipt : FilePath → ApprovalTrustRoot → Action ApprovalReceipt
  load_approval_receipt path trust_root = do
    receipt ← load_json p.receipt_codec path
    lift (verify_approval_receipt p receipt trust_root)
    lift (Base.ok receipt)

  unfoldable pub load_revocation_state : FilePath → ApprovalTrustRoot → Action RevocationState
  load_revocation_state path trust_root = do
    state ← load_json p.revocation_codec path
    lift (verify_revocation_state p state trust_root)
    lift (Base.ok state)

  abbrev created_new : FilePath → Published → Checked (Unit {0})
  created_new path published = Base.ok tt
  created_new path (refused already_exists) = Base.err (approval_conflict path)
  created_new path (refused kind) = Base.err (io path kind)

  abbrev create_parent : Option FilePath → Action (Unit {0})
  create_parent none = lift (Base.ok tt)
  create_parent (some parent) = attempt os parent

  unfoldable pub store_approval_bundle : FilePath → ApprovalBundle → Action FilePath
  store_approval_bundle path bundle = do
    lift (validate_approval_bundle bundle)
    payload ← lift (canonical_json p p.bundle_codec bundle)
    create_parent (parent_of path)
    answer ← open_new os path
    lift (created_new path answer)
    write_all os path payload
    attempt os path
    make_read_only os path
    lift (Base.ok path)

  abbrev listed : Option FilePath → List FilePath
  listed none = []
  listed (some path) = path ∷ []

  abbrev referenced_paths : ApprovalBundle → List FilePath
  referenced_paths bundle =
      bundle.prompt
      ∷ bundle.runtime
      ∷ bundle.deployment
      ∷ bundle.snapshot_root
      ∷ bundle.receipt
      ∷ bundle.trust_root
      ∷ listed bundle.revocation_state

  -- `fs::symlink_metadata` of each path; `is_link` says which paths are symbolic links.
  unfoldable pub check_links : (is_link : FilePath → Bool) → List FilePath → Action (Unit {0})
  check_links is_link [] = lift (Base.ok tt)
  check_links is_link (path ∷ paths) = do
    attempt os path
    lift (
        Base.reject_if (is_link path)
          (approval_rollback (String.◌++◌ "approval bundle references a symlink: " path)))
    check_links is_link paths

  unfoldable pub load_approval_bundle :
      (is_link : FilePath → Bool) → FilePath → Action ApprovalBundle
  load_approval_bundle is_link path = do
    bundle ← load_json p.bundle_codec path
    lift (validate_approval_bundle bundle)
    check_links is_link (referenced_paths bundle)
    lift (Base.ok bundle)
