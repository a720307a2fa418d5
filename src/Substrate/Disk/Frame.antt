-- ===== src/Substrate/Disk/Frame.antt =====
-- What the calls do to the files: relations of two disks that actions respect, one rule for each way
-- to build an action.
use lmml.Base.{
  ℕ, Bool, true, false, Option, none, some, [], ◌∷◌, ◌≡◌, ◌≢◌, ◌↔◌, refl, arith, ◌==◌, eq_iff, eqb,
  ok, err, if◌then◌else◌, Bool-cases, Option-cases, inl, inr, Result, ◌&&◌,
}
use lmml.Base
use lmml.Substrate.Types.{FilePath}
use lmml.Substrate.Errors.{Checked}
use lmml.Substrate.Disk.{
  Bytes, bytes_eq, Disk, write, Os, World, Action, ◌>>=◌, continue, lift, attempt, is_file,
  read_required, persist_noclobber,
}

-- No file of `d` is gone or changed in `e`, and only `path` may differ.
pub record Frame (path : FilePath) (d e : Disk) : Type 0 where
  pub kept : (q : FilePath) (b : Bytes) → d q ≡ some b → e q ≡ some b
  pub elsewhere : (q : FilePath) → path ≢ q → e q ≡ d q

pub Frame-refl : (path : FilePath) (d : Disk) → Frame path d d
Frame-refl path d = record { kept = λ q b h. h; elsewhere = λ q h. refl }

pub Frame-trans :
    (path : FilePath) (d e f : Disk) → Frame path d e → Frame path e f → Frame path d f
Frame-trans path d e f x y = record {
  kept = λ q b h. y.kept q b (x.kept q b h);
  elsewhere = λ q h. Base.◌∙◌ (y.elsewhere q h) (x.elsewhere q h);
}

-- Writing where there is no file.
pub Frame-write :
    (path : FilePath) (d : Disk) (content : Option Bytes)
    → d path ≡ none
    → Frame path d (write d path content)
Frame-write path d content absent = record {
  kept = λ q b h. kept_at q b h;
  elsewhere = λ q h. ground (arith, eq_iff path q);
}
  where
    kept_at : (q : FilePath) (b : Bytes) → d q ≡ some b → write d path content q ≡ some b
    kept_at q b h = elim (Bool-cases (path == q)) [
      | inl same ↦ let e : path ≡ q = (eq_iff path q).0 same in ground (arith, absent, h, e)
      | inr other ↦ rw other h
    ]

-- The action changes the files in the frame of `path` alone, whether it returns or fails.
pub record Frames {ℓ} (path : FilePath) {A : Type ℓ} (m : Action A) : Type ℓ where
  pub at : (w : World) → Frame path w.disk (m w).1.disk

module _ {ℓ} {A : Type ℓ} {path : FilePath} where
  pub Frames-lift : (r : Checked A) → Frames path (lift r)
  unfolding lift
  Frames-lift r = record { at = λ w. Frame-refl path w.disk }

  pub Frames-if :
      (b : Bool) (m n : Action A) → Frames path m → Frames path n → Frames path (if b then m else n)
  Frames-if true m n f g = f
  Frames-if false m n f g = g

module _ {ℓ κ} {A : Type ℓ} {B : Type κ} {path : FilePath} where
  continue-Frame :
      (r : Checked A) (f : A → Action B) (w : World)
      → ((a : A) → Frames path (f a))
      → Frame path w.disk (continue r f w).1.disk
  continue-Frame (Base.ok a) f w h = (h a).at w
  continue-Frame (Base.err e) f w h = Frame-refl path w.disk

  pub Frames-bind :
      (m : Action A) (f : A → Action B)
      → Frames path m
      → ((a : A) → Frames path (f a))
      → Frames path (m >>= f)
  unfolding ◌>>=◌
  Frames-bind m f h k = record {
    at = λ w.
        let (r, w') = m w in
        Frame-trans path w.disk w'.disk (continue r f w').1.disk (h.at w) (continue-Frame r f w' k);
  }

module _ {path : FilePath} where
  pub Frames-attempt : (os : Os) (q : FilePath) → Frames path (attempt os q)
  unfolding attempt
  Frames-attempt os q = record { at = λ w. ground (arith, Frame-refl path w.disk) }

  pub Frames-is_file : (os : Os) (q : FilePath) → Frames path (is_file os q)
  unfolding is_file
  Frames-is_file os q = record { at = λ w. Frame-refl path w.disk }

  pub Frames-read_required : (os : Os) (q : FilePath) → Frames path (read_required os q)
  unfolding read_required
  Frames-read_required os q = record { at = λ w. ground (arith, Frame-refl path w.disk) }

pub Frames-persist_noclobber :
    (path : FilePath) (os : Os) (payload : Bytes) → Frames path (persist_noclobber os path payload)
unfolding persist_noclobber
Frames-persist_noclobber path os payload = record { at = λ w. framed w }
  where
    framed : (w : World) → Frame path w.disk (persist_noclobber os path payload w).1.disk
    framed w = elim (Option-cases (w.disk path)) [
      | inl absent ↦ elim (Option-cases (os.intruder w.calls)) [
        | inl alone ↦
            ground (arith, Frame-refl path w.disk, Frame-write path w.disk (some payload) absent)
        | inr (b, e) ↦
            ground (arith, Frame-refl path w.disk, Frame-write path w.disk (some b) absent)
      ]
      | inr (b, e) ↦ ground (arith, Frame-refl path w.disk)
    ]

pub ruleset frame_rules = (
  Frames-lift, Frames-if, Frames-attempt, Frames-is_file, Frames-read_required,
  Frames-persist_noclobber, Frames-bind,
)

pub bytes_eq_iff : (a b : Bytes) → (bytes_eq a b ≡ true) ↔ (a ≡ b)
bytes_eq_iff [] [] = ground arith
bytes_eq_iff [] (b ∷ ys) = ground arith
bytes_eq_iff (a ∷ xs) [] = ground arith
bytes_eq_iff (a ∷ xs) (b ∷ ys) = ground (arith, bytes_eq_iff xs ys)

pub write_self :
    (d : Disk) (path : FilePath) (content : Option Bytes) → write d path content path ≡ content
write_self d path content = ground (arith, eq_iff path path)
