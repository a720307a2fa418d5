-- ===== src/Substrate/Approval/Files/Stored.antt =====
-- What the `persist_immutable` of crates/lmml-substrate/src/approval.rs leaves where it succeeds, and
-- where it finds the file there.
use lmml.Base
use lmml.Base.{
  suc, ◌-◌, ◌/◌, ◌≡◌, refl, inl, inr, none, some, arith, if◌then◌else◌, Option-cases, there,
}
use lmml.Substrate.Types.{FilePath}
use lmml.Substrate.Errors.{not_found, already_exists, permission_denied, other, SubstrateError}
use lmml.Substrate.Disk.{
  Bytes, bytes_eq, Os, World, ◌>>=◌, lift, attempt, read_required, Published, published, refused,
  persist_noclobber,
}
use lmml.Substrate.Disk.Frame.{bytes_eq_iff, write_self}
use lmml.Substrate.Approval.Files.{write_all, open_new, accept_equal, fill_new, persist_immutable}

module _ (os : Os) (path : FilePath) (payload : Bytes) (conflict : FilePath → SubstrateError) where
  accept_equal-stored :
      (w : World)
      → (accept_equal os path payload conflict w).0 ≡ Base.ok tt
      → (accept_equal os path payload conflict w).1.disk path ≡ some payload
  unfolding accept_equal ◌>>=◌ lift read_required
  accept_equal-stored w h = elim (Option-cases (w.disk path)) [
    | inl e ↦ ground (arith, e)
    | inr (b, e) ↦ ground (arith, e, bytes_eq_iff b payload)
  ]

  fill_new-stored :
      (w : World) (answer : Published)
      → (fill_new os path payload conflict answer w).0 ≡ Base.ok tt
      → (fill_new os path payload conflict answer w).1.disk path ≡ some payload
  unfolding fill_new ◌>>=◌ lift attempt write_all
  fill_new-stored w published h = ground (arith, write_self w.disk path (some payload))
  fill_new-stored w (refused already_exists) h = accept_equal-stored w h
  fill_new-stored w (refused not_found) h = cc
  fill_new-stored w (refused permission_denied) h = cc
  fill_new-stored w (refused other) h = cc

  open_new-answers : (w : World) → (answer : Published) × ((open_new os path w).0 ≡ Base.ok answer)
  unfolding open_new persist_noclobber
  open_new-answers w = elim (Option-cases (os.fault w.calls)) [
    | inr (kind, e) ↦ (refused kind, ground (arith, e))
    | inl e ↦ elim (Option-cases (w.disk path)) [
      | inr (b, f) ↦ (refused already_exists, ground (arith, e, f))
      | inl f ↦ elim (Option-cases (os.intruder w.calls)) [
        | inr (b, g) ↦ (refused already_exists, ground (arith, e, f, g))
        | inl g ↦ (published, ground (arith, e, f, g))
      ]
    ]
  ]

  -- A publication that succeeds leaves the payload at the path.
  pub persist_immutable-stored :
      (w : World)
      → (persist_immutable os path payload conflict w).0 ≡ Base.ok tt
      → (persist_immutable os path payload conflict w).1.disk path ≡ some payload
  unfolding persist_immutable ◌>>=◌
  persist_immutable-stored w h =
      let (answer, e) = open_new-answers w in
      ground (arith, e, fill_new-stored (open_new os path w).1 answer)

  -- Where no call fails and the file is there: the same bytes are accepted, others are a conflict,
  -- and no file changes.
  pub persist_immutable-found :
      (w : World) (found : Bytes)
      → os.fault w.calls ≡ none
      → os.read_fault (suc w.calls) ≡ none
      → w.disk path ≡ some found
      → ((persist_immutable os path payload conflict w).0
          ≡ (if bytes_eq found payload then Base.ok tt else Base.err (conflict path)))
        × ((persist_immutable os path payload conflict w).1
            ≡ record w { calls = suc (suc w.calls) })
  unfolding persist_immutable fill_new accept_equal open_new ◌>>=◌ lift read_required
      persist_noclobber
  persist_immutable-found w found e f g = (ground (arith, e, f, g), ground (arith, e, f, g))
