-- ===== src/Substrate/Persist/Effects.antt =====
-- What publication does to the files of crates/lmml-substrate, whatever fails and whoever interferes.
use lmml.Base.{suc, ℕ, none, some, ◌≡◌, inl, inr, arith, ok, err, Option-cases}
use lmml.Substrate.Types.{FilePath}
use lmml.Substrate.Errors.{SubstrateError, already_exists}
use lmml.Substrate.Disk.{
  Bytes, Os, World, ◌>>=◌, lift, attempt, is_file, read_required, persist_noclobber, published,
  refused, Published, write,
}
use lmml.Substrate.Disk.Frame.{
  Frames, Frame, frame_rules, Frames-lift, Frames-attempt, bytes_eq_iff, write_self,
}
use lmml.Substrate.Persist.{
  PersistOutcome, created, existing, accept_existing, publish_new, create_new, write_temporary,
  persist_immutable_with_outcome,
}

module _ (os : Os) (path : FilePath) (payload : Bytes) (conflict : FilePath → SubstrateError) where
  Frames-accept_existing : Frames path (accept_existing os path payload conflict)
  unfolding accept_existing
  Frames-accept_existing = search frame_rules

  Frames-publish_new :
      (answer : Published) → Frames path (publish_new os path payload conflict answer)
  Frames-publish_new published = Frames-lift _
  Frames-publish_new (refused already_exists) = Frames-accept_existing
  Frames-publish_new (refused _) = Frames-lift _

  Frames-write_temporary : Frames path (write_temporary os)
  unfolding write_temporary
  Frames-write_temporary = record { at = λ w. (Frames-attempt os (os.temporary w.calls)).at w }

  pub Frames-create_new : Frames path (create_new os path payload conflict)
  unfolding create_new
  Frames-create_new = search (frame_rules, Frames-write_temporary, Frames-publish_new)

  pub Frames-persist : Frames path (persist_immutable_with_outcome os path payload conflict)
  unfolding persist_immutable_with_outcome
  Frames-persist = search (frame_rules, Frames-accept_existing, Frames-create_new)

  accept_existing_lem :
      (w : World) (o : PersistOutcome)
      → (accept_existing os path payload conflict w).0 ≡ ok o
      → (o ≡ existing)
        × (w.disk path ≡ some payload)
        × ((accept_existing os path payload conflict w).1.disk ≡ w.disk)
  unfolding accept_existing ◌>>=◌ lift read_required
  accept_existing_lem w o h = elim (Option-cases (w.disk path)) [
    | inl e ↦ ground (arith, e)
    | inr (b, e) ↦ ground (arith, e, bytes_eq_iff b payload)
  ]

  create_new_lem :
      (w : World) (o : PersistOutcome)
      → (create_new os path payload conflict w).0 ≡ ok o
      → ((create_new os path payload conflict w).1.disk path ≡ some payload)
        × (o ≡ created → w.disk path ≡ none)
  unfolding create_new write_temporary ◌>>=◌ lift attempt persist_noclobber
  create_new_lem w o h =
      let w' : World = record w { calls = suc (suc (suc w.calls)) } in
      elim (Option-cases (os.intruder (suc (suc w.calls)))) [
        | inl alone ↦
            ground (arith, alone, accept_existing_lem w' o, write_self w.disk path (some payload))
        | inr (b, e) ↦
            let w'' : World = record w' { disk = write w.disk path (some b) } in
            ground (arith, e, accept_existing_lem w' o, accept_existing_lem w'' o)
      ]

  persist_lem :
      (w : World) (o : PersistOutcome)
      → (persist_immutable_with_outcome os path payload conflict w).0 ≡ ok o
      → ((persist_immutable_with_outcome os path payload conflict w).1.disk path ≡ some payload)
        × (o ≡ created → w.disk path ≡ none)
  unfolding persist_immutable_with_outcome ◌>>=◌ attempt is_file
  persist_lem w o h = ground (
    arith,
    accept_existing_lem (record w { calls = suc (suc w.calls) }) o,
    create_new_lem (record w { calls = suc (suc w.calls) }) o,
  )

  -- Whatever fails and whoever interferes, a file that was there keeps its bytes, and no path but the
  -- given one changes.
  pub persist_write_once :
      (w : World)
      → Frame path w.disk (persist_immutable_with_outcome os path payload conflict w).1.disk
  persist_write_once w = Frames-persist.at w

  -- A publication that succeeds leaves the payload at the path, also where other processes interfere,
  -- and says that it created the file only where there was none.
  pub persist_success :
      (w : World) (o : PersistOutcome)
      → (persist_immutable_with_outcome os path payload conflict w).0 ≡ ok o
      → ((persist_immutable_with_outcome os path payload conflict w).1.disk path ≡ some payload)
        × (o ≡ created → w.disk path ≡ none)
  persist_success w o h = persist_lem w o h

  accept_existing_disk : (w : World) → (accept_existing os path payload conflict w).1.disk ≡ w.disk
  unfolding accept_existing ◌>>=◌ lift read_required
  accept_existing_disk w = ground arith

  create_new_failure :
      (w : World) (e : SubstrateError)
      → ((n : ℕ) → os.intruder n ≡ none)
      → (create_new os path payload conflict w).0 ≡ err e
      → (create_new os path payload conflict w).1.disk ≡ w.disk
  unfolding create_new write_temporary ◌>>=◌ lift attempt persist_noclobber
  create_new_failure w e alone h =
      let w' : World = record w { calls = suc (suc (suc w.calls)) } in
      ground (arith, alone (suc (suc w.calls)), accept_existing_disk w')

  -- Where no other process interferes, a publication that fails changes no file.
  pub persist_failure :
      (w : World) (e : SubstrateError)
      → ((n : ℕ) → os.intruder n ≡ none)
      → (persist_immutable_with_outcome os path payload conflict w).0 ≡ err e
      → (persist_immutable_with_outcome os path payload conflict w).1.disk ≡ w.disk
  unfolding persist_immutable_with_outcome ◌>>=◌ attempt is_file
  persist_failure w e alone h =
      let w' : World = record w { calls = suc (suc w.calls) } in
      ground (arith, accept_existing_disk w', create_new_failure w' e alone)

  create_new_existing :
      (w : World)
      → ((n : ℕ) → os.intruder n ≡ none)
      → (create_new os path payload conflict w).0 ≡ ok existing
      → (create_new os path payload conflict w).1.disk ≡ w.disk
  unfolding create_new write_temporary ◌>>=◌ lift attempt persist_noclobber
  create_new_existing w alone h =
      let w' : World = record w { calls = suc (suc (suc w.calls)) } in
      ground (arith, alone (suc (suc w.calls)), accept_existing_disk w')

  -- Where no other process interferes, finding the payload in place changes no file.
  pub persist_existing :
      (w : World)
      → ((n : ℕ) → os.intruder n ≡ none)
      → (persist_immutable_with_outcome os path payload conflict w).0 ≡ ok existing
      → (persist_immutable_with_outcome os path payload conflict w).1.disk ≡ w.disk
  unfolding persist_immutable_with_outcome ◌>>=◌ attempt is_file
  persist_existing w alone h =
      let w' : World = record w { calls = suc (suc w.calls) } in
      ground (arith, accept_existing_disk w', create_new_existing w' alone)
