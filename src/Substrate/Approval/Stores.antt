-- ===== src/Substrate/Approval/Stores.antt =====
-- The stores of crates/lmml-substrate/src/approval.rs: receipts and revocation states above the
-- anchor, trust roots and their rotation.
pub mod Monotone
pub mod Rotation
pub mod Undo
use Prim.Native.String
use lmml.Base
use lmml.Base.{
  ℕ, ◌+◌, ◌-◌, ◌/◌, ◌<◌, String, Bool, false, not, ◌&&◌, ◌||◌, Option, none, some, List, [], ◌∷◌,
  ◌++◌, ltb, leb, eqb,
}
use lmml.Base.Ascii.{ascii_text}
use lmml.Base.Decimal.{print_u64}
use lmml.Substrate.Types.{FilePath}
use lmml.Substrate.Errors.{
  already_exists, SubstrateError, panicked, approval_rollback, approval_conflict,
  revocation_conflict, io, invalid_json, Checked,
}
use lmml.Substrate.Disk.{
  Bytes, Os, Action, ◌>>=◌, ◌>>◌, lift, attempt, read_required, Published, published, refused,
  remove_file, parent_of, join,
}
use lmml.Substrate.Approval.Types.{
  ApprovalBundle, ApprovalReceipt, RevocationEvent, RevocationState, ApprovalTrustRoot,
  TrustRootRotation,
}
use lmml.Substrate.Approval.Platform.{Codec, ApprovalPlatform}
use lmml.Substrate.Approval.Contracts.{validate_approval_bundle, validate_approval_trust_root}
use lmml.Substrate.Approval.Signing.{
  canonical_json, verify_approval_receipt, verify_revocation_state, verify_trust_root_rotation,
}
use lmml.Substrate.Approval.Files.{
  write_all, open_new, persist_immutable, protect_file, make_read_only, prepare_directory,
}
use lmml.Substrate.Approval.Anchor.{read_anchor, write_anchor}

-- `events.last().map_or(0, |event| event.sequence)`, after the sequence `last`.
abbrev last_from : ℕ → List RevocationEvent → ℕ
last_from last [] = last
last_from last (event ∷ events) = last_from event.sequence events

unfoldable pub last_sequence : RevocationState → ℕ
last_sequence state = last_from 0 state.events

-- `(epoch, sequence) < anchor`, as tuples compare.
abbrev pub is_older : (epoch sequence : ℕ) → Option (ℕ × ℕ) → Bool
is_older epoch sequence none = false
is_older epoch sequence (some anchor) =
    ltb epoch anchor.0 || (eqb epoch anchor.0 && ltb sequence anchor.1)

abbrev pub is_below : ℕ → Option (ℕ × ℕ) → Bool
is_below sequence none = false
is_below sequence (some anchor) = ltb sequence anchor.1

abbrev pub epoch_of : Option (ℕ × ℕ) → ℕ
epoch_of none = 0
epoch_of (some anchor) = anchor.0

abbrev no_advance : SubstrateError
no_advance = approval_rollback "trust-root rotation does not advance key epoch"

abbrev older_state : SubstrateError
older_state = approval_rollback "revocation state is older than the protected anchor"

abbrev older_receipt : ApprovalReceipt → Option (ℕ × ℕ) → SubstrateError
older_receipt receipt none = panicked
older_receipt receipt (some anchor) =
    let number : ℕ → String = λ n. ascii_text (print_u64 n) in
    approval_rollback (
      String.◌++◌ "receipt sequence " (
        String.◌++◌ (number receipt.sequence) (
          String.◌++◌ " is older than anchor epoch "
            (String.◌++◌ (number anchor.0) (String.◌++◌ " sequence " (number anchor.1))))))

unfoldable pub receipt_path : FilePath → ApprovalReceipt → FilePath
receipt_path root receipt = join root (String.◌++◌ receipt.receipt_id ".json")

unfoldable pub epoch_path : FilePath → RevocationState → FilePath
epoch_path root state =
    join root (String.◌++◌ "epoch-" (String.◌++◌ (ascii_text (print_u64 state.epoch)) ".json"))

module _ (os : Os) (p : ApprovalPlatform) where
  unfoldable pub store_approval_receipt :
      (root anchor_path : FilePath) → ApprovalReceipt → ApprovalTrustRoot → Action FilePath
  store_approval_receipt root anchor_path receipt trust_root = do
    lift (verify_approval_receipt p receipt trust_root)
    anchor ← read_anchor os anchor_path
    lift (Base.reject_if (is_below receipt.sequence anchor) (older_receipt receipt anchor))
    attempt os root
    payload ← lift (canonical_json p p.receipt_codec receipt)
    persist_immutable os (receipt_path root receipt) payload approval_conflict
    current ← read_anchor os anchor_path
    write_anchor os anchor_path (epoch_of current) receipt.sequence
    lift (Base.ok (receipt_path root receipt))

  unfoldable pub store_revocation_state :
      (root anchor_path : FilePath) → RevocationState → ApprovalTrustRoot → Action FilePath
  store_revocation_state root anchor_path state trust_root = do
    lift (verify_revocation_state p state trust_root)
    anchor ← read_anchor os anchor_path
    lift (Base.reject_if (is_older state.epoch (last_sequence state) anchor) older_state)
    attempt os root
    payload ← lift (canonical_json p p.revocation_codec state)
    persist_immutable os (epoch_path root state) payload revocation_conflict
    write_anchor os anchor_path state.epoch (last_sequence state)
    lift (Base.ok (epoch_path root state))

  unfoldable pub store_approval_trust_root : FilePath → ApprovalTrustRoot → Action FilePath
  store_approval_trust_root path trust_root = do
    lift (validate_approval_trust_root trust_root)
    prepare_directory os (parent_of path)
    payload ← lift (canonical_json p p.trust_root_codec trust_root)
    persist_immutable os path payload approval_conflict
    protect_file os path
    lift (Base.ok path)

  -- Where the migration is not published, the root file is removed; that this fails is ignored.
  unfoldable pub undo_root : (root_path : FilePath) → Checked (Unit {0}) → Action (Unit {0})
  undo_root root_path (Base.ok done) w = (Base.ok done, w)
  undo_root root_path (Base.err error) w =
      let (ignored, w') = remove_file os root_path w in (Base.err error, w')

  unfoldable pub publish_migration :
      (root_path migration_path : FilePath) → Bytes → Action (Unit {0})
  publish_migration root_path migration_path payload w =
      let (answer, w') = persist_immutable os migration_path payload approval_conflict w in
      undo_root root_path answer w'

  -- Both files, once the directories are there.
  unfoldable pub publish_rotation :
      (root_path migration_path : FilePath) (root_payload migration_payload : Bytes)
      → Action (Unit {0})
  publish_rotation root_path migration_path root_payload migration_payload = do
    persist_immutable os root_path root_payload approval_conflict
    publish_migration root_path migration_path migration_payload
    protect_file os root_path
    protect_file os migration_path

  unfoldable pub store_trust_root_rotation :
      (root_path migration_path : FilePath)
      → TrustRootRotation
      → ApprovalTrustRoot
      → Action FilePath
  store_trust_root_rotation root_path migration_path rotation old_root = do
    lift (verify_trust_root_rotation p rotation old_root)
    lift (Base.reject_if (leb rotation.new_root.key_epoch old_root.key_epoch) no_advance)
    prepare_directory os (parent_of root_path)
    prepare_directory os (parent_of migration_path)
    root_payload ← lift (canonical_json p p.trust_root_codec rotation.new_root)
    migration_payload ← lift (canonical_json p p.rotation_codec rotation)
    publish_rotation root_path migration_path root_payload migration_payload
    lift (Base.ok root_path)
