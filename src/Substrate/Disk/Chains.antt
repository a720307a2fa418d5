-- ===== src/Substrate/Disk/Chains.antt =====
-- What a call ensures of its result and of the world that it leaves, and the rule for a chain.
use lmml.Base.{◌≡◌, refl, ok, err}
use lmml.Substrate.Errors.{Checked, SubstrateError}
use lmml.Substrate.Disk.{World, Action, ◌>>=◌, continue, lift}

-- A value that is returned satisfies `Q`, and an error leaves a world that satisfies `E`.
pub record Ensures {A : Type 0} (Q : A → World → Type 0) (E : World → Type 0)
    (out : Checked A × World) : Type 0 where
  pub returned : (a : A) → out.0 ≡ ok a → Q a out.1
  pub failed : (e : SubstrateError) → out.0 ≡ err e → E out.1

module _ {A : Type 0} {Q : A → World → Type 0} {E : World → Type 0} where
  pub Ensures-lift :
      (r : Checked A) (w : World) → ((a : A) → r ≡ ok a → Q a w) → E w → Ensures Q E (lift r w)
  unfolding lift
  Ensures-lift r w q e = record { returned = q; failed = λ x h. e }

module _ {A B : Type 0} {R : A → World → Type 0} {Q : B → World → Type 0} {E : World → Type 0} where
  continue-Ensures :
      (r : Checked A) (f : A → Action B) (w : World)
      → Ensures R E (r, w)
      → ((a : A) (w' : World) → R a w' → Ensures Q E (f a w'))
      → Ensures Q E (continue r f w)
  continue-Ensures (ok a) f w h k = k a w (h.returned a refl)
  continue-Ensures (err e) f w h k = record {
    returned = λ a x. cc;
    failed = λ x y. h.failed e refl;
  }

  pub Ensures-bind :
      (m : Action A) (f : A → Action B) (w : World)
      → Ensures R E (m w)
      → ((a : A) (w' : World) → R a w' → Ensures Q E (f a w'))
      → Ensures Q E ((m >>= f) w)
  unfolding ◌>>=◌
  Ensures-bind m f w h k = continue-Ensures (m w).0 f (m w).1 h k
