-- ===== src/Substrate/Approval/Stores/Rotation.antt =====
-- What `store_trust_root_rotation` of crates/lmml-substrate/src/approval.rs leaves behind.
use lmml.Base
use lmml.Base.{◌-◌, ◌/◌, ◌<◌, ◌≡◌, refl, ap, ◌∙◌, ◌≢◌, Bool, Option, some, arith, leb, reject_if-ok}
use lmml.Substrate.Types.{FilePath}
use lmml.Substrate.Errors.{SubstrateError, approval_conflict, Checked}
use lmml.Substrate.Disk.{Bytes, Disk, Os, World, Action, lift, parent_of}
use lmml.Substrate.Disk.Chains.{Ensures, Ensures-lift, Ensures-bind}
use lmml.Substrate.Approval.Types.{ApprovalTrustRoot, TrustRootRotation}
use lmml.Substrate.Approval.Platform.{ApprovalPlatform}
use lmml.Substrate.Approval.Signing.{canonical_json, verify_trust_root_rotation}
use lmml.Substrate.Approval.Files.{persist_immutable, protect_file, prepare_directory}
use lmml.Substrate.Approval.Files.Leaves.{Leaves, Leaves-persist_immutable, Leaves-protect_file}
use lmml.Substrate.Approval.Files.Stored.{persist_immutable-stored}
use lmml.Substrate.Approval.Stores.{
  no_advance, undo_root, publish_migration, publish_rotation, store_trust_root_rotation,
}

module _ {A : Type 0} where
  -- What a call that leaves the file alone ensures of it.
  Ensures-kept :
      (q : FilePath) (content : Option Bytes) (m : Action A) (w : World)
      → Leaves q m
      → w.disk q ≡ content
      → Ensures (λ a w'. w'.disk q ≡ content) (λ w'. Unit {0}) (m w)
  Ensures-kept q content m w leaves e = record {
    returned = λ a h. leaves.at w ∙ e;
    failed = λ x h. tt;
  }

  Ensures-any : (m : Action A) (w : World) → Ensures (λ a w'. Unit {0}) (λ w'. Unit {0}) (m w)
  Ensures-any m w = record { returned = λ a h. tt; failed = λ x h. tt }

Ensures-pure :
    {A : Type 0} (r : Checked A) (w : World)
    → Ensures (λ a w'. r ≡ Base.ok a) (λ w'. Unit {0}) (lift r w)
Ensures-pure r w = Ensures-lift r w (λ a h. h) tt

module _ (os : Os) (p : ApprovalPlatform) (root_path migration_path : FilePath)
    (rotation : TrustRootRotation) (old_root : ApprovalTrustRoot) where
  -- The rotation is authorized by the old root, it raises the epoch of the key, and the two files hold
  -- the new root and the rotation.
  pub record IsRotated (d : Disk) : Type 0 where
    pub authorized : verify_trust_root_rotation p rotation old_root ≡ Base.ok tt
    pub advanced : old_root.key_epoch < rotation.new_root.key_epoch
    pub root_bytes : Bytes
    pub root_text : canonical_json p p.trust_root_codec rotation.new_root ≡ Base.ok root_bytes
    pub root_stored : d root_path ≡ some root_bytes
    pub migration_bytes : Bytes
    pub migration_text : canonical_json p p.rotation_codec rotation ≡ Base.ok migration_bytes
    pub migration_stored : d migration_path ≡ some migration_bytes

  undo_root-ok :
      (answer : Checked (Unit {0})) (w : World)
      → (undo_root os p root_path answer w).0 ≡ Base.ok tt
      → (answer ≡ Base.ok tt) × ((undo_root os p root_path answer w).1 ≡ w)
  unfolding undo_root
  undo_root-ok (Base.ok tt) w h = (refl, refl)
  undo_root-ok (Base.err x) w h = cc

  publish_migration-both :
      (root_bytes migration_bytes : Bytes) (w : World)
      → migration_path ≢ root_path
      → w.disk root_path ≡ some root_bytes
      → Ensures
          (λ a w'.
            (w'.disk root_path ≡ some root_bytes) × (w'.disk migration_path ≡ some migration_bytes))
          (λ w'. Unit {0})
          (publish_migration os p root_path migration_path migration_bytes w)
  unfolding publish_migration
  publish_migration-both root_bytes migration_bytes w apart e = record {
    returned = λ a h.
        let out = persist_immutable os migration_path migration_bytes approval_conflict w in
        let (fine, same) = undo_root-ok out.0 out.1 h in
        (
          ap (λ (v : World). v.disk root_path) same
              ∙ (Leaves-persist_immutable os migration_path root_path apart migration_bytes
                    approval_conflict).at
                  w
              ∙ e,
          ap (λ (v : World). v.disk migration_path) same
              ∙ persist_immutable-stored os migration_path migration_bytes approval_conflict w fine,
        );
    failed = λ x h. tt;
  }

  protected :
      (path : FilePath) (root_bytes migration_bytes : Bytes) (w : World)
      → (w.disk root_path ≡ some root_bytes) × (w.disk migration_path ≡ some migration_bytes)
      → Ensures
          (λ a w'.
            (w'.disk root_path ≡ some root_bytes) × (w'.disk migration_path ≡ some migration_bytes))
          (λ w'. Unit {0})
          (protect_file os path w)
  protected path root_bytes migration_bytes w e = record {
    returned =
        λ a h. ((Leaves-protect_file os path).at w ∙ e.0, (Leaves-protect_file os path).at w ∙ e.1);
    failed = λ x h. tt;
  }

  stored :
      (path : FilePath) (payload : Bytes) (w : World)
      → Ensures
          (λ a w'. w'.disk path ≡ some payload)
          (λ w'. Unit {0})
          (persist_immutable os path payload approval_conflict w)
  stored path payload w = record {
    returned = λ a h. persist_immutable-stored os path payload approval_conflict w h;
    failed = λ x h. tt;
  }

  publish_rotation-both :
      (root_bytes migration_bytes : Bytes) (w : World)
      → migration_path ≢ root_path
      → Ensures
          (λ a w'.
            (w'.disk root_path ≡ some root_bytes) × (w'.disk migration_path ≡ some migration_bytes))
          (λ w'. Unit {0})
          (publish_rotation os p root_path migration_path root_bytes migration_bytes w)
  unfolding publish_rotation
  publish_rotation-both root_bytes migration_bytes w apart =
      Ensures-bind (persist_immutable os root_path root_bytes approval_conflict) _ w
        (stored root_path root_bytes w)
        λ a w1 at_root.
          Ensures-bind (publish_migration os p root_path migration_path migration_bytes) _ w1
            (publish_migration-both root_bytes migration_bytes w1 apart at_root)
            λ b w2 e2.
              Ensures-bind (protect_file os root_path) _ w2
                (protected root_path root_bytes migration_bytes w2 e2)
                λ c w3 e3. protected migration_path root_bytes migration_bytes w3 e3

  stale : Bool
  stale = leb rotation.new_root.key_epoch old_root.key_epoch

  epoch_advances :
      (x : SubstrateError) {u : Unit {0}}
      → Base.reject_if stale x ≡ Base.ok u
      → old_root.key_epoch < rotation.new_root.key_epoch
  unfolding stale
  epoch_advances x h = ground (arith, Base.reject_if-ok stale x h)

  -- Where the two files have different paths: if the call succeeds, the rotation is authorized by the
  -- old root and raises the epoch of the key, and the files hold the new root and the rotation.
  pub store_trust_root_rotation-IsRotated :
      (w : World)
      → migration_path ≢ root_path
      → Ensures
          (λ path w'. (path ≡ root_path) × IsRotated w'.disk)
          (λ w'. Unit {0})
          (store_trust_root_rotation os p root_path migration_path rotation old_root w)
  unfolding store_trust_root_rotation stale
  store_trust_root_rotation-IsRotated w apart =
      Ensures-bind (lift (verify_trust_root_rotation p rotation old_root)) _ w (Ensures-pure _ w)
        λ a w1 verified.
          Ensures-bind (lift (Base.reject_if stale no_advance)) _ w1 (Ensures-pure _ w1)
            λ b w2 fresh.
              Ensures-bind (prepare_directory os (parent_of root_path)) _ w2
                (Ensures-any (prepare_directory os (parent_of root_path)) w2)
                λ c w3 t3.
                  Ensures-bind (prepare_directory os (parent_of migration_path)) _ w3
                    (Ensures-any (prepare_directory os (parent_of migration_path)) w3)
                    λ d w4 t4.
                      Ensures-bind (lift (canonical_json p p.trust_root_codec rotation.new_root)) _
                        w4 (Ensures-pure _ w4)
                        λ root_bytes w5 root_text.
                          Ensures-bind (lift (canonical_json p p.rotation_codec rotation)) _ w5
                            (Ensures-pure _ w5)
                            λ migration_bytes w6 migration_text.
                              Ensures-bind
                                (publish_rotation os p root_path migration_path root_bytes
                                  migration_bytes)
                                _ w6 (publish_rotation-both root_bytes migration_bytes w6 apart)
                                λ f w7 e7.
                                  Ensures-lift _ w7
                                    (λ path h. (
                                      cc,
                                      record {
                                        authorized = verified;
                                        advanced = epoch_advances no_advance fresh;
                                        root_bytes = root_bytes;
                                        root_text = root_text;
                                        root_stored = e7.0;
                                        migration_bytes = migration_bytes;
                                        migration_text = migration_text;
                                        migration_stored = e7.1;
                                      },
                                    ))
                                    tt
