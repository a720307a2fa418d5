-- ===== src/Substrate/Admission/Effects.antt =====
-- `store_admitted_successor` of crates/lmml-substrate/src/lifecycle.rs: both records or none.
use lmml.Base.{
  ℕ, suc, none, some, ◌≡◌, inl, inr, refl, sym, ◌∙◌, arith, ok, err, subst, Bool-cases, ◌==◌,
  eq_iff,
}
use mathlib.Core.Path.{fun_ext}
use lmml.Substrate.Types.{FilePath, SubstrateManifest, SuccessorManifest}
use lmml.Substrate.Errors.{Checked, SubstrateError, manifest_conflict, lifecycle_conflict}
use lmml.Substrate.Disk.{
  Bytes, Disk, write, Os, World, ◌>>=◌, lift, is_file, read_required, remove_file,
}
use lmml.Substrate.Disk.Frame.{Frame, bytes_eq_iff}
use lmml.Substrate.Disk.Chains.{Ensures, Ensures-lift, Ensures-bind}
use lmml.Substrate.Persist.{
  PersistOutcome, created, existing, preflight_immutable, rollback_exact,
  persist_immutable_with_outcome,
}
use lmml.Substrate.Persist.Effects.{
  persist_write_once, persist_success, persist_failure, persist_existing,
}
use lmml.Substrate.Platform.{Platform}
use lmml.Substrate.Agreement.Agreed.{IsAgreed, admitted_payloads-IsAgreed}
use lmml.Substrate.Admission.{undo, settle, publish_admission, store_admitted_successor}

module _ (os : Os) where
  preflight_disk :
      (path : FilePath) (payload : Bytes) (conflict : FilePath → SubstrateError) (w : World)
      → (preflight_immutable os path payload conflict w).1.disk ≡ w.disk
  unfolding preflight_immutable ◌>>=◌ lift is_file read_required
  preflight_disk path payload conflict w = ground arith

  preflight-Ensures :
      (E : World → Type 0) (path : FilePath) (payload : Bytes)
      (conflict : FilePath → SubstrateError) (w : World)
      → ((w' : World) → w'.disk ≡ w.disk → E w')
      → Ensures (λ _ w'. w'.disk ≡ w.disk) E (preflight_immutable os path payload conflict w)
  preflight-Ensures E path payload conflict w keep = record {
    returned = λ a h. preflight_disk path payload conflict w;
    failed = λ e h. keep _ (preflight_disk path payload conflict w);
  }

  module _ (o : PersistOutcome) (cpath : FilePath) (cp : Bytes) where
    -- The answer was a success, and the files are as they were.
    settle-Ensures :
        (answer : Checked PersistOutcome) (w : World)
        → Ensures
            (λ _ w'. ((done : PersistOutcome) × (answer ≡ ok done)) × (w'.disk ≡ w.disk))
            (λ w'. Unit {0})
            (settle os o cpath cp answer w)
    unfolding settle
    settle-Ensures (ok done) w = Ensures-lift (ok tt) w (λ a h. ((done, refl), refl)) tt
    settle-Ensures (err e) w =
        Ensures-bind {R = λ _ _. Unit {0}} (undo os o cpath cp) (λ _. lift (err e)) w
          (record { returned = λ a h. tt; failed = λ x h. tt })
          (λ a w' h. Ensures-lift (err e) w' (λ x y. cc) tt)

    -- On success the admission record is there, and the canonical record stays.
    publish_admission-Ensures :
        (apath : FilePath) (admitted : Bytes) (w : World)
        → w.disk cpath ≡ some cp
        → Ensures
            (λ _ w'. (w'.disk cpath ≡ some cp) × (w'.disk apath ≡ some admitted))
            (λ w'. Unit {0})
            (publish_admission os o cpath cp apath admitted w)
    unfolding publish_admission
    publish_admission-Ensures apath admitted w there =
        let run = persist_immutable_with_outcome os apath admitted lifecycle_conflict w in
        let settled = settle-Ensures run.0 run.1 in
        let kept =
          (persist_write_once os apath admitted lifecycle_conflict w).kept cpath cp there in
        let put = persist_success os apath admitted lifecycle_conflict w in
        record {
          returned = λ a h.
              let (answered, same) = settled.returned a h in
              (rw same kept, rw same (put answered.0 answered.1).0);
          failed = λ e h. tt;
        }

  module _ (p : Platform) where
    -- After a successful admission the two paths are returned, and both files hold what
    -- `serde_json` writes for the two records, whatever other calls failed and whoever interfered.
    -- The validators accept both records, and these name the same successor, the same parent and
    -- the same hash of the tensors.
    pub store_admitted_success :
        (cpath : FilePath) (canonical : SubstrateManifest) (apath : FilePath)
        (admission : SuccessorManifest) (w : World)
        → Ensures
            (λ paths w'.
              (payloads : Bytes × Bytes) × (paths ≡ (cpath, apath))
              × IsAgreed p canonical admission payloads
              × (w'.disk cpath ≡ some payloads.0)
              × (w'.disk apath ≡ some payloads.1))
            (λ w'. Unit {0})
            (store_admitted_successor os p cpath canonical apath admission w)
    unfolding store_admitted_successor
    store_admitted_success cpath canonical apath admission w =
        Ensures-bind _ _ w (Ensures-lift _ w (admitted_payloads-IsAgreed p canonical admission) tt)
          λ payloads w1 agreed.
            Ensures-bind _ _ w1 (preflight-Ensures _ cpath payloads.0 _ w1 (λ _ _. tt)) λ _ w2 _.
              Ensures-bind _ _ w2 (preflight-Ensures _ apath payloads.1 _ w2 (λ _ _. tt)) λ _ w3 _.
                Ensures-bind {R = λ _ w'. w'.disk cpath ≡ some payloads.0} _ _ w3
                  (record {
                    returned = λ o h. (persist_success os cpath payloads.0 _ w3 o h).0;
                    failed = λ _ _. tt;
                  })
                  λ o w4 there.
                    Ensures-bind _ _ w4
                      (publish_admission-Ensures o cpath payloads.0 apath payloads.1 w4 there)
                      λ _ w5 both.
                        Ensures-lift _ w5
                          (λ paths h. (payloads, ground (arith, h), agreed, both.0, both.1)) tt

-- No other process creates files, and files that are there can be read and removed. Any other call
-- may still fail.
pub record IsSteady (os : Os) : Type 0 where
  pub alone : (n : ℕ) → os.intruder n ≡ none
  pub reads : (n : ℕ) → os.read_fault n ≡ none
  pub removes : (n : ℕ) → os.remove_fault n ≡ none

module _ (os : Os) (steady : IsSteady os) where
  rollback-Ensures :
      (path : FilePath) (payload : Bytes) (w : World)
      → w.disk path ≡ some payload
      → Ensures
          (λ _ w'. w'.disk ≡ write w.disk path none)
          (λ w'. ⊥)
          (rollback_exact os path payload w)
  unfolding rollback_exact ◌>>=◌ lift read_required remove_file
  rollback-Ensures path payload w there = record {
    returned = λ a h. ground (
      arith,
      steady.reads w.calls,
      steady.removes (suc w.calls),
      (bytes_eq_iff payload payload).1 refl,
      there,
    );
    failed = λ e h. ground (
      arith,
      steady.reads w.calls,
      steady.removes (suc w.calls),
      (bytes_eq_iff payload payload).1 refl,
      there,
    );
  }

  -- Taking away what was made where nothing was gives the files back.
  remove_made :
      (path : FilePath) (d d' : Disk) → Frame path d d' → d path ≡ none → write d' path none ≡ d
  remove_made path d d' frame absent = fun_ext λ q. elim (Bool-cases (path == q)) [
    | inl same ↦
        let e : path ≡ q = (eq_iff path q).0 same in
        rw same (sym (subst (λ x. d x ≡ none) e absent))
    | inr other ↦ rw other (frame.elsewhere q (λ e. ground (arith, eq_iff path q, e, other)))
  ]

  module _ (cpath : FilePath) (cp : Bytes) (start : Disk) where
    -- The files after the canonical record was published over `start`.
    abbrev Made : PersistOutcome → Disk → Type 0
    Made o d =
        (d cpath ≡ some cp)
        × Frame cpath start d
        × (o ≡ created → start cpath ≡ none)
        × (o ≡ existing → d ≡ start)

    abbrev Restored : World → Type 0
    Restored w = w.disk ≡ start

    undo-Ensures :
        (o : PersistOutcome) (w : World)
        → Made o w.disk
        → Ensures (λ _. Restored) Restored (undo os o cpath cp w)
    unfolding undo lift
    undo-Ensures created w (there, frame, fresh, same) =
        let gone = rollback-Ensures cpath cp w there in
        let back = remove_made cpath start w.disk frame (fresh refl) in
        record {
          returned = λ a h. gone.returned a h ∙ back;
          failed = λ e h. absurd (gone.failed e h);
        }
    undo-Ensures existing w (there, frame, fresh, same) = record {
      returned = λ a h. same refl;
      failed = λ e h. cc;
    }

    settle-Restored :
        (o : PersistOutcome) (answer : Checked PersistOutcome) (w : World)
        → (((e : SubstrateError) → answer ≡ err e → Made o w.disk))
        → Ensures (λ _ _. Unit {0}) Restored (settle os o cpath cp answer w)
    unfolding settle lift
    settle-Restored o (ok done) w made = record { returned = λ a h. tt; failed = λ e h. cc }
    settle-Restored o (err e) w made =
        Ensures-bind (undo os o cpath cp) (λ _. lift (err e)) w (undo-Ensures o w (made e refl))
          (λ a w' restored. record { returned = λ _ _. tt; failed = λ _ _. restored })

    publish_admission-Restored :
        (o : PersistOutcome) (apath : FilePath) (admitted : Bytes) (w : World)
        → Made o w.disk
        → Ensures (λ _ _. Unit {0}) Restored (publish_admission os o cpath cp apath admitted w)
    unfolding publish_admission
    publish_admission-Restored o apath admitted w made =
        let run = persist_immutable_with_outcome os apath admitted lifecycle_conflict w in
        let still = persist_failure os apath admitted lifecycle_conflict w in
        settle-Restored o run.0 run.1 (λ e h. subst (Made o) (sym (still e steady.alone h)) made)

    persist-Made :
        (w : World)
        → w.disk ≡ start
        → Ensures
            (λ o w'. Made o w'.disk)
            Restored
            (persist_immutable_with_outcome os cpath cp manifest_conflict w)
    persist-Made w from =
        let run = persist_immutable_with_outcome os cpath cp manifest_conflict w in
        let put = persist_success os cpath cp manifest_conflict w in
        let frame = persist_write_once os cpath cp manifest_conflict w in
        let same = persist_existing os cpath cp manifest_conflict w steady.alone in
        record {
          returned = λ o h. (
            (put o h).0,
            subst (λ d. Frame cpath d run.1.disk) from frame,
            λ e. subst (λ (d : Disk). d cpath ≡ none) from ((put o h).1 e),
            λ e. same (subst (λ x. run.0 ≡ ok x) e h) ∙ from,
          );
          failed = λ e h. persist_failure os cpath cp manifest_conflict w e steady.alone h ∙ from;
        }

  module _ (p : Platform) where
    -- Where the admission is refused or fails at any point, every file is as it was before: a
    -- canonical record that the call created is gone again. No other process may create files, and
    -- files must be readable and removable; any other call may fail.
    pub store_admitted_failure :
        (cpath : FilePath) (canonical : SubstrateManifest) (apath : FilePath)
        (admission : SuccessorManifest) (w : World) (e : SubstrateError)
        → (store_admitted_successor os p cpath canonical apath admission w).0 ≡ err e
        → (store_admitted_successor os p cpath canonical apath admission w).1.disk ≡ w.disk
    unfolding store_admitted_successor lift
    store_admitted_failure cpath canonical apath admission w =
        (Ensures-bind {Q = λ _ _. Unit {0}} _ _ w
          (Ensures-lift {Q = λ _ w'. w'.disk ≡ w.disk} _ w (λ _ _. refl) refl)
          λ payloads w1 s1.
            Ensures-bind _ _ w1
              (preflight-Ensures os (Restored cpath payloads.0 w.disk) cpath payloads.0 _ w1
                (λ _ s. s ∙ s1))
              λ _ w2 s2.
                Ensures-bind _ _ w2
                  (preflight-Ensures os _ apath payloads.1 _ w2 (λ _ s. s ∙ (s2 ∙ s1)))
                  λ _ w3 s3.
                    Ensures-bind _ _ w3 (persist-Made cpath payloads.0 w.disk w3 (s3 ∙ (s2 ∙ s1)))
                      λ o w4 made.
                        Ensures-bind _ _ w4
                          (publish_admission-Restored cpath payloads.0 w.disk o apath payloads.1 w4
                            made)
                          λ _ w5 _. record { returned = λ _ _. tt; failed = λ e h. cc }).failed
