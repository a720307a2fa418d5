-- ===== src/Substrate/Approval/Files/Leaves.antt =====
-- The calls of crates/lmml-substrate/src/approval.rs that leave a given file as it is, whatever fails.
use lmml.Base
use lmml.Base.{
  ℕ, Bool, true, false, none, some, Option, [], ◌≡◌, ◌≢◌, refl, arith, ◌==◌, eq_iff, if◌then◌else◌,
}
use lmml.Substrate.Types.{FilePath}
use lmml.Substrate.Errors.{already_exists, SubstrateError, Checked}
use lmml.Substrate.Disk.{
  Bytes, Disk, write, Os, World, Action, continue, ◌>>=◌, lift, attempt, read_required, Published,
  published, refused,
}
use lmml.Substrate.Disk.Frame.{Frames-persist_noclobber}
use lmml.Substrate.Approval.Files.{
  write_all, create_file, write_file, open_new, accept_equal, fill_new, persist_immutable,
  protect_directory, protect_file, prepare_directory,
}

pub record Leaves {ℓ} (q : FilePath) {A : Type ℓ} (m : Action A) : Type ℓ where
  pub at : (w : World) → (m w).1.disk q ≡ w.disk q

module _ {ℓ} {A : Type ℓ} {q : FilePath} where
  pub Leaves-lift : (r : Checked A) → Leaves q (lift r)
  unfolding lift
  Leaves-lift r = record { at = λ w. refl }

  pub Leaves-if :
      (b : Bool) (m n : Action A) → Leaves q m → Leaves q n → Leaves q (if b then m else n)
  Leaves-if true m n f g = f
  Leaves-if false m n f g = g

module _ {ℓ κ} {A : Type ℓ} {B : Type κ} {q : FilePath} where
  continue-Leaves :
      (r : Checked A) (f : A → Action B) (w : World)
      → ((a : A) → Leaves q (f a))
      → (continue r f w).1.disk q ≡ w.disk q
  continue-Leaves (Base.ok a) f w h = (h a).at w
  continue-Leaves (Base.err e) f w h = refl

  pub Leaves-bind :
      (m : Action A) (f : A → Action B)
      → Leaves q m
      → ((a : A) → Leaves q (f a))
      → Leaves q (m >>= f)
  unfolding ◌>>=◌
  Leaves-bind m f h k = record {
    at = λ w. let (r, w') = m w in Base.◌∙◌ (continue-Leaves r f w' k) (h.at w);
  }

module _ {q : FilePath} (os : Os) where
  pub Leaves-attempt : (path : FilePath) → Leaves q (attempt os path)
  unfolding attempt
  Leaves-attempt path = record { at = λ w. ground arith }

  pub Leaves-read_required : (path : FilePath) → Leaves q (read_required os path)
  unfolding read_required
  Leaves-read_required path = record { at = λ w. ground arith }

pub write_other :
    (d : Disk) (path q : FilePath) (content : Option Bytes)
    → path ≢ q
    → write d path content q ≡ d q
write_other d path q content h = ground (arith, eq_iff path q)

module _ (os : Os) (path q : FilePath) (other : path ≢ q) where
  Leaves-open_new : Leaves q (open_new os path)
  unfolding open_new
  Leaves-open_new = record {
    at = λ w. ((Frames-persist_noclobber path os []).at w).elsewhere q other;
  }

  Leaves-write_all : (payload : Bytes) → Leaves q (write_all os path payload)
  unfolding write_all
  Leaves-write_all payload = record { at = λ w. ground (arith, eq_iff path q) }

  Leaves-create_file : Leaves q (create_file os path)
  unfolding create_file
  Leaves-create_file = record { at = λ w. ground (arith, eq_iff path q) }

  ruleset leaving = (Leaves-lift, Leaves-if, Leaves-bind, Leaves-attempt, Leaves-read_required)

  pub Leaves-write_file : (payload : Bytes) → Leaves q (write_file os path payload)
  unfolding write_file
  Leaves-write_file payload =
      Leaves-bind (create_file os path) _ Leaves-create_file λ _. Leaves-write_all payload

  Leaves-accept_equal :
      (payload : Bytes) (conflict : FilePath → SubstrateError)
      → Leaves q (accept_equal os path payload conflict)
  unfolding accept_equal
  Leaves-accept_equal payload conflict = search leaving

  Leaves-fill_new :
      (payload : Bytes) (conflict : FilePath → SubstrateError) (answer : Published)
      → Leaves q (fill_new os path payload conflict answer)
  unfolding fill_new
  Leaves-fill_new payload conflict published =
      Leaves-bind (write_all os path payload) _ (Leaves-write_all payload)
        λ _. Leaves-attempt os path
  Leaves-fill_new payload conflict (refused already_exists) = Leaves-accept_equal payload conflict
  Leaves-fill_new payload conflict (refused _) = Leaves-lift _

  -- Publishing another file leaves this one as it is.
  pub Leaves-persist_immutable :
      (payload : Bytes) (conflict : FilePath → SubstrateError)
      → Leaves q (persist_immutable os path payload conflict)
  unfolding persist_immutable
  Leaves-persist_immutable payload conflict =
      Leaves-bind (open_new os path) _ Leaves-open_new (Leaves-fill_new payload conflict)

pub Leaves-prepare_directory :
    {q : FilePath} (os : Os) (parent : Option FilePath) → Leaves q (prepare_directory os parent)
unfolding prepare_directory protect_directory
Leaves-prepare_directory os none = Leaves-lift _
Leaves-prepare_directory os (some parent) =
    Leaves-bind (attempt os parent) _ (Leaves-attempt os parent) λ _. Leaves-attempt os parent

pub Leaves-protect_file :
    {q : FilePath} (os : Os) (path : FilePath) → Leaves q (protect_file os path)
unfolding protect_file
Leaves-protect_file os path = Leaves-attempt os path
