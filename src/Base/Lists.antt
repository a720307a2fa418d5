-- ===== src/Base/Lists.antt =====
-- Lists over native numbers, under the library's names, and searches by Boolean tests.
use Prim.Native.Nat.{ℕ, zero, suc}
use mathlib.Core.Path.{◌≡◌, refl, sym, subst}
use mathlib.Core.Logic.{◌⊎◌, inl, inr}
use mathlib.Core.Bool.{Bool, true, false, ◌&&◌, ◌||◌}
use mathlib.Core.Option.{Option, none, some}
use mathlib.Core.List.{List, [], ◌∷◌, ◌++◌, map}
use native.Mathlib.Omega.{arith}
use package.lmml.Base.Tests.{if◌then◌else◌, Bool-cases}

module _ {ℓ} {A : Type ℓ} where
  abbrev pub length : List A → ℕ
  length [] = 0
  length (x ∷ xs) = suc (length xs)

  abbrev pub is_empty : List A → Bool
  is_empty [] = true
  is_empty (x ∷ xs) = false

  abbrev pub any : (A → Bool) → List A → Bool
  any p [] = false
  any p (x ∷ xs) = p x || any p xs

  abbrev pub all : (A → Bool) → List A → Bool
  all p [] = true
  all p (x ∷ xs) = p x && all p xs

  -- The library's `filter` takes a decision; this one takes a test.
  abbrev pub retain : (A → Bool) → List A → List A
  retain p [] = []
  retain p (x ∷ xs) = let rest = retain p xs in if p x then x ∷ rest else rest

  abbrev pub take : ℕ → List A → List A
  take zero xs = []
  take (suc n) [] = []
  take (suc n) (x ∷ xs) = x ∷ take n xs

  abbrev pub find : (A → Bool) → List A → Option A
  find p [] = none
  find p (x ∷ xs) = if p x then some x else find p xs

-- `x` stands in the list.
pub data In {ℓ} {A : Type ℓ} (x : A) : List A → Type ℓ where
  here : {y : A} {ys : List A} → x ≡ y → In x (y ∷ ys)
  there : {y : A} {ys : List A} → In x ys → In x (y ∷ ys)

module _ {ℓ κ} {A : Type ℓ} (P : A → Type κ) where
  abbrev pub All : List A → Type κ
  All [] = Unit
  All (x ∷ xs) = P x × All xs

module _ {ℓ κ} {A : Type ℓ} (R : A → A → Type κ) where
  -- Every element is related to those after it.
  abbrev pub Pairwise : List A → Type (ℓ ⊔ κ)
  Pairwise [] = Unit
  Pairwise (x ∷ xs) = ((y : A) → In y xs → R x y) × Pairwise xs

module _ {ℓ} {A : Type ℓ} (p : A → Bool) where
  pub all-In : (xs : List A) → all p xs ≡ true → (x : A) → In x xs → p x ≡ true
  all-In [] h x i = elim i [ ]
  all-In (y ∷ xs) h x (here e) = rw e (ground arith)
  all-In (y ∷ xs) h x (there i) = all-In xs (ground arith) x i

  pub any-In : (xs : List A) → any p xs ≡ true → (x : A) × In x xs × (p x ≡ true)
  any-In [] h = cc
  any-In (y ∷ xs) h = elim (Bool-cases (p y)) [
    | inl e ↦ (y, here refl, e)
    | inr e ↦ let (x, i, q) = any-In xs (ground arith) in (x, there i, q)
  ]

  pub any-none : (xs : List A) → any p xs ≡ false → (x : A) → In x xs → p x ≡ false
  any-none [] h x i = elim i [ ]
  any-none (y ∷ xs) h x (here e) = rw e (ground arith)
  any-none (y ∷ xs) h x (there i) = any-none xs (ground arith) x i

module _ {ℓ} {A : Type ℓ} where
  pub List-cases : (xs : List A) → (xs ≡ []) ⊎ ((x : A) × (ys : List A) × (xs ≡ x ∷ ys))
  List-cases [] = inl refl
  List-cases (x ∷ xs) = inr (x, xs, refl)

module _ {A : Type 0} where
  pub retain-In : (p : A → Bool) (xs : List A) (x : A) → In x (retain p xs) → In x xs × (p x ≡ true)
  retain-In p [] x i = elim i [ ]
  retain-In p (y ∷ xs) x i = elim (Bool-cases (p y)) [
    | inl e ↦
        split e (subst (λ b. In x (if b then y ∷ retain p xs else retain p xs)) e i)
          (retain-In p xs x)
    | inr e ↦
        let (j, h) =
          retain-In p xs x (subst (λ b. In x (if b then y ∷ retain p xs else retain p xs)) e i) in
        (there j, h)
  ]
    where
      split :
          p y ≡ true
          → In x (y ∷ retain p xs)
          → (In x (retain p xs) → In x xs × (p x ≡ true))
          → In x (y ∷ xs) × (p x ≡ true)
      split e (here same) rest = (here same, rw same e)
      split e (there j) rest = let (k, h) = rest j in (there k, h)

  pub In-retain : (p : A → Bool) (xs : List A) (x : A) → In x xs → p x ≡ true → In x (retain p xs)
  In-retain p [] x i h = elim i [ ]
  In-retain p (y ∷ xs) x (here same) h = rw (sym same) (rw h (here refl))
  In-retain p (y ∷ xs) x (there i) h = elim (Bool-cases (p y)) [
    | inl e ↦ rw e (there (In-retain p xs x i h))
    | inr e ↦ rw e (In-retain p xs x i h)
  ]

  pub In-append : (xs ys : List A) (x : A) → In x (xs ++ ys) → In x xs ⊎ In x ys
  In-append [] ys x i = inr i
  In-append (y ∷ xs) ys x (here e) = inl (here e)
  In-append (y ∷ xs) ys x (there i) = elim (In-append xs ys x i) [
    | inl j ↦ inl (there j)
    | inr j ↦ inr j
  ]

module _ {A B : Type 0} where
  pub In-map : (f : A → B) (xs : List A) (y : B) → In y (map f xs) → (x : A) × In x xs × (y ≡ f x)
  In-map f [] y i = elim i [ ]
  In-map f (x ∷ xs) y (here e) = (x, here refl, e)
  In-map f (x ∷ xs) y (there i) = let (z, j, e) = In-map f xs y i in (z, there j, e)

module _ {A : Type 0} where
  pub append_left : (xs ys : List A) (x : A) → In x xs → In x (xs ++ ys)
  append_left [] ys x i = elim i [ ]
  append_left (y ∷ xs) ys x (here e) = here e
  append_left (y ∷ xs) ys x (there i) = there (append_left xs ys x i)

  pub append_right : (xs ys : List A) (x : A) → In x ys → In x (xs ++ ys)
  append_right [] ys x i = i
  append_right (y ∷ xs) ys x i = there (append_right xs ys x i)
