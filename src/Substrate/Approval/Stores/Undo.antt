-- ===== src/Substrate/Approval/Stores/Undo.antt =====
-- The undoing of a rotation by `store_trust_root_rotation` of crates/lmml-substrate/src/approval.rs.
use lmml.Base
use lmml.Base.{
  ℕ, suc, ◌-◌, ◌/◌, ◌<◌, ◌≡◌, refl, ap, ◌∙◌, ◌≢◌, true, false, Option, none, some, arith, leb,
  there,
}
use lmml.Substrate.Types.{FilePath}
use lmml.Substrate.Errors.{SubstrateError, approval_conflict}
use lmml.Substrate.Disk.{
  Bytes, bytes_eq, Disk, Os, World, Action, ◌>>=◌, lift, attempt, remove_file, parent_of,
}
use lmml.Substrate.Approval.Types.{ApprovalTrustRoot, TrustRootRotation}
use lmml.Substrate.Approval.Platform.{ApprovalPlatform}
use lmml.Substrate.Approval.Files.Stored.{persist_immutable-found}
use lmml.Substrate.Disk.Frame.{bytes_eq_iff, write_self}
use lmml.Substrate.Approval.Files.{persist_immutable, protect_directory, prepare_directory}
use lmml.Substrate.Approval.Signing.{canonical_json, verify_trust_root_rotation}
use lmml.Substrate.Approval.Stores.{
  undo_root, publish_migration, publish_rotation, store_trust_root_rotation,
}

module _ {A B : Type 0} where
  bind_ok :
      (m : Action A) (f : A → Action B) (w w' : World) (a : A)
      → m w ≡ (Base.ok a, w')
      → (m >>= f) w ≡ f a w'
  unfolding ◌>>=◌
  bind_ok m f w w' a e = rw e refl

  bind_err :
      (m : Action A) (f : A → Action B) (w w' : World) (x : SubstrateError)
      → m w ≡ (Base.err x, w')
      → (m >>= f) w ≡ (Base.err x, w')
  unfolding ◌>>=◌
  bind_err m f w w' x e = rw e refl

-- No call of the machine fails.
pub record IsCalm (os : Os) : Type 0 where
  pub calls_succeed : (n : ℕ) → os.fault n ≡ none
  pub reads_succeed : (n : ℕ) → os.read_fault n ≡ none
  pub removals_succeed : (n : ℕ) → os.remove_fault n ≡ none

-- The call returns, and the files are as they were.
abbrev Returns : {A : Type 0} → Action A → A → World → Type 0
Returns m a w = (w' : World) × (m w ≡ (Base.ok a, w')) × (w'.disk ≡ w.disk)

module _ (os : Os) (calm : IsCalm os) where
  attempt-Returns : (path : FilePath) (w : World) → Returns (attempt os path) tt w
  unfolding attempt
  attempt-Returns path w =
      (record w { calls = suc w.calls }, ground (arith, calm.calls_succeed w.calls), refl)

  prepare_directory-Returns :
      (parent : Option FilePath) (w : World) → Returns (prepare_directory os parent) tt w
  unfolding prepare_directory protect_directory lift
  prepare_directory-Returns none w = (w, refl, refl)
  prepare_directory-Returns (some parent) w =
      let (w1, e1, d1) = attempt-Returns parent w in
      let (w2, e2, d2) = attempt-Returns parent w1 in
      (w2, bind_ok (attempt os parent) (λ _. attempt os parent) w w1 tt e1 ∙ e2, d2 ∙ d1)

  module _ (p : ApprovalPlatform) (root_path migration_path : FilePath) where
    undo_root-err :
        (x : SubstrateError) (w : World) (found : Bytes)
        → w.disk root_path ≡ some found
        → (undo_root os p root_path (Base.err x) w).0 ≡ Base.err x
    unfolding undo_root
    undo_root-err x w found e = refl

    undo_root-removes :
        (x : SubstrateError) (w : World) (found : Bytes)
        → w.disk root_path ≡ some found
        → (undo_root os p root_path (Base.err x) w).1.disk root_path ≡ none
    unfolding undo_root remove_file
    undo_root-removes x w found e =
        ground (arith, e, calm.removals_succeed w.calls, write_self w.disk root_path none)

    -- The migration is in conflict with a file that is there, so the root file goes.
    publish_migration-conflict :
        (payload found root_bytes : Bytes) (w : World)
        → w.disk migration_path ≡ some found
        → bytes_eq found payload ≡ false
        → w.disk root_path ≡ some root_bytes
        → (w' : World) × (publish_migration os p root_path migration_path payload w
            ≡ (Base.err (approval_conflict migration_path), w'))
          × (w'.disk root_path ≡ none)
    unfolding publish_migration undo_root
    publish_migration-conflict payload found root_bytes w at_migration differs at_root =
        let (answer, after) =
          persist_immutable-found os migration_path payload approval_conflict w found
            (calm.calls_succeed w.calls) (calm.reads_succeed (suc w.calls)) at_migration in
        let w1 : World = record w { calls = suc (suc w.calls) } in
        let refused : (persist_immutable os migration_path payload approval_conflict w).0
            ≡ Base.err (approval_conflict migration_path) =
          answer ∙ rw differs refl in
        let error : SubstrateError = approval_conflict migration_path in
        (
          (undo_root os p root_path (Base.err error) w1).1,
          rw refused (rw after refl),
          undo_root-removes error w1 root_bytes at_root,
        )

    -- The root file is there with the new root.
    persist_root :
        (root_bytes : Bytes) (w : World)
        → w.disk root_path ≡ some root_bytes
        → Returns (persist_immutable os root_path root_bytes approval_conflict) tt w
    persist_root root_bytes w at_root =
        let (answer, after) =
          persist_immutable-found os root_path root_bytes approval_conflict w root_bytes
            (calm.calls_succeed w.calls) (calm.reads_succeed (suc w.calls)) at_root in
        let same : bytes_eq root_bytes root_bytes ≡ true =
          (bytes_eq_iff root_bytes root_bytes).1 refl in
        let fine = answer ∙ rw same refl in
        (record w { calls = suc (suc w.calls) }, λ i. (fine i, after i), refl)

    publish_rotation-conflict :
        (root_bytes migration_bytes found : Bytes) (w : World)
        → w.disk root_path ≡ some root_bytes
        → w.disk migration_path ≡ some found
        → found ≢ migration_bytes
        → (w' : World) × (publish_rotation os p root_path migration_path root_bytes migration_bytes
              w
            ≡ (Base.err (approval_conflict migration_path), w'))
          × (w'.disk root_path ≡ none)
    unfolding publish_rotation
    publish_rotation-conflict root_bytes migration_bytes found w at_root at_migration differs =
        let (w1, e1, d1) = persist_root root_bytes w at_root in
        let unequal : bytes_eq found migration_bytes ≡ false =
          ground (arith, bytes_eq_iff found migration_bytes, differs) in
        let (w2, e2, gone) =
          publish_migration-conflict migration_bytes found root_bytes w1
            (ap (λ (d : Disk). d migration_path) d1 ∙ at_migration) unequal
            (ap (λ (d : Disk). d root_path) d1 ∙ at_root) in
        (
          w2,
          bind_ok (persist_immutable os root_path root_bytes approval_conflict) _ w w1 tt e1
              ∙ bind_err (publish_migration os p root_path migration_path migration_bytes) _ w1 w2
                  (approval_conflict migration_path) e2,
          gone,
        )

    module _ (rotation : TrustRootRotation) (old_root : ApprovalTrustRoot)
        (root_bytes migration_bytes found : Bytes) (w : World) where
      -- Where no call fails: if the root file holds the new root already, and another migration is
      -- recorded, the call fails and the root file that was there is gone.
      pub store_trust_root_rotation-removes_root :
          verify_trust_root_rotation p rotation old_root ≡ Base.ok tt
          → old_root.key_epoch < rotation.new_root.key_epoch
          → canonical_json p p.trust_root_codec rotation.new_root ≡ Base.ok root_bytes
          → canonical_json p p.rotation_codec rotation ≡ Base.ok migration_bytes
          → w.disk root_path ≡ some root_bytes
          → w.disk migration_path ≡ some found
          → found ≢ migration_bytes
          → (w' : World) × (store_trust_root_rotation os p root_path migration_path rotation
                old_root w
              ≡ (Base.err (approval_conflict migration_path), w'))
            × (w'.disk root_path ≡ none)
      unfolding store_trust_root_rotation ◌>>=◌ lift
      store_trust_root_rotation-removes_root verified fresh root_text migration_text at_root
            at_migration differs =
          let (w1, e1, d1) = prepare_directory-Returns (parent_of root_path) w in
          let (w2, e2, d2) = prepare_directory-Returns (parent_of migration_path) w1 in
          let (w3, e3, gone) =
            publish_rotation-conflict root_bytes migration_bytes found w2
              (ap (λ (d : Disk). d root_path) (d2 ∙ d1) ∙ at_root)
              (ap (λ (d : Disk). d migration_path) (d2 ∙ d1) ∙ at_migration) differs in
          let advanced : leb rotation.new_root.key_epoch old_root.key_epoch ≡ false =
            ground arith in
          (
            w3,
            rw verified
                (rw advanced (rw e1 (rw e2 (rw root_text (rw migration_text (rw e3 refl)))))),
            gone,
          )
