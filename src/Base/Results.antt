-- ===== src/Base/Results.antt =====
-- `Result<A, E>` and the chains that `?` and early returns make of it.
use mathlib.Core.Path.{◌≡◌, refl}
use mathlib.Core.Logic.{◌⊎◌, inl, inr}
use mathlib.Core.Bool.{Bool, true, false}
use mathlib.Core.Option.{Option, none, some}
use mathlib.Core.List.{List, [], ◌∷◌}
use package.lmml.Base.Lists.{In, here, there}

pub data Result {ℓ} (E : Type 0) (A : Type ℓ) : Type ℓ where
  ok : A → Result E A
  err : E → Result E A

module _ {ℓ κ} {E : Type 0} {A : Type ℓ} {B : Type κ} where
  infixl 5 ◌>>=◌
  abbrev pub ◌>>=◌ : Result E A → (A → Result E B) → Result E B
  ok a >>= f = f a
  err e >>= f = err e

module _ {ℓ} {E : Type 0} {B : Type ℓ} where
  infixl 5 ◌>>◌
  abbrev pub ◌>>◌ : Result E (Unit {0}) → Result E B → Result E B
  m >> k = m >>= λ _. k

module _ {E : Type 0} where
  -- `if test { return Err(e); }`
  abbrev pub reject_if : Bool → E → Result E (Unit {0})
  reject_if true e = err e
  reject_if false e = ok tt

  -- The body of a `for` loop that may return early.
  abbrev pub for_each {ℓ} : {A : Type ℓ} → (A → Result E (Unit {0})) → List A → Result E (Unit {0})
  for_each f [] = ok tt
  for_each f (x ∷ xs) = f x >> for_each f xs

  -- `option.ok_or(e)`
  abbrev pub ok_or {ℓ} : {A : Type ℓ} → Option A → E → Result E A
  ok_or none e = err e
  ok_or (some a) e = ok a

module _ {ℓ} {E : Type 0} {A : Type ℓ} where
  pub Result-cases : (r : Result E A) → ((a : A) × (r ≡ ok a)) ⊎ ((e : E) × (r ≡ err e))
  Result-cases (ok a) = inl (a, refl)
  Result-cases (err e) = inr (e, refl)

module _ {ℓ} {E : Type 0} {A : Type ℓ} where
  pub ok_inj : (a b : A) → ◌≡◌ {A = Result E A} (ok a) (ok b) → a ≡ b
  ok_inj a b h = cc

  pub ok_or-some : (o : Option A) (e : E) (a : A) → ok_or o e ≡ ok a → o ≡ some a
  ok_or-some none e a h = cc
  ok_or-some (some b) e a h = cc

-- Inversion of a chain that succeeds.
module _ {E : Type 0} where
  pub reject_if-ok : (b : Bool) (e : E) {u : Unit {0}} → reject_if b e ≡ ok u → b ≡ false
  reject_if-ok true e h = cc
  reject_if-ok false e h = refl

module _ {ℓ} {E : Type 0} {B : Type ℓ} where
  pub >>-ok :
      (m : Result E (Unit {0})) (k : Result E B) {b : B}
      → (m >> k) ≡ ok b
      → (m ≡ ok tt) × (k ≡ ok b)
  >>-ok (ok tt) k h = (refl, h)
  >>-ok (err e) k h = cc

  -- A check that passed, and the rest of the chain.
  pub guard-ok :
      (b : Bool) (e : E) (k : Result E B) {v : B}
      → (reject_if b e >> k) ≡ ok v
      → (b ≡ false) × (k ≡ ok v)
  guard-ok true e k h = cc
  guard-ok false e k h = (refl, h)

module _ {ℓ κ} {E : Type 0} {A : Type ℓ} {B : Type κ} where
  pub >>=-ok :
      (m : Result E A) (f : A → Result E B) {b : B}
      → (m >>= f) ≡ ok b
      → (a : A) × (m ≡ ok a) × (f a ≡ ok b)
  >>=-ok (ok a) f h = (a, refl, h)
  >>=-ok (err e) f h = cc

module _ {ℓ} {E : Type 0} {A : Type ℓ} (f : A → Result E (Unit {0})) where
  pub for_each-In : (xs : List A) → for_each f xs ≡ ok tt → (x : A) → In x xs → f x ≡ ok tt
  for_each-In [] h x i = elim i [ ]
  for_each-In (y ∷ xs) h x (here e) = rw e (>>-ok (f y) (for_each f xs) h).0
  for_each-In (y ∷ xs) h x (there i) = for_each-In xs (>>-ok (f y) (for_each f xs) h).1 x i
