-- ===== src/Substrate/Canonical/Order.antt =====
-- The order of texts, and what `is_strictly_sorted_unique` of crates/lmml-substrate/src/storage.rs
-- decides.
use lmml.Base.{
  ℕ, String, true, false, ◌≡◌, ◌↔◌, refl, arith, false, ap, ◌==◌, eq_iff, Bool-cases, inl, inr,
  List, [], ◌∷◌, some, In, here, there, Pairwise,
}
use text.Mathlib.TextEquality.{Char-path}
use mathlib.Core.List.{cons-eq-cons}
use lmml.Base.Text.{codes, codes_lt, text_lt}
use lmml.Substrate.Canonical.{sorted_after, is_strictly_sorted_unique}

codes_lt_trans : (a b c : List ℕ) → codes_lt a b ≡ true → codes_lt b c ≡ true → codes_lt a c ≡ true
unfolding codes_lt
codes_lt_trans [] [] c h k = cc
codes_lt_trans (x ∷ a) [] c h k = cc
codes_lt_trans a (y ∷ b) [] h k = cc
codes_lt_trans [] (y ∷ b) (z ∷ c) h k = refl
codes_lt_trans (x ∷ a) (y ∷ b) (z ∷ c) h k = ground (arith, codes_lt_trans a b c)

codes_lt_irrefl : (a : List ℕ) → codes_lt a a ≡ false
unfolding codes_lt
codes_lt_irrefl [] = refl
codes_lt_irrefl (x ∷ a) = ground (arith, codes_lt_irrefl a)

-- Not standing after is transitive too, and what stands before does not stand after.
codes_le_trans :
    (a b c : List ℕ) → codes_lt b a ≡ false → codes_lt c b ≡ false → codes_lt c a ≡ false
unfolding codes_lt
codes_le_trans [] [] [] h k = refl
codes_le_trans [] [] (z ∷ c) h k = refl
codes_le_trans [] (y ∷ b) [] h k = refl
codes_le_trans [] (y ∷ b) (z ∷ c) h k = refl
codes_le_trans (x ∷ a) [] c h k = cc
codes_le_trans (x ∷ a) (y ∷ b) [] h k = cc
codes_le_trans (x ∷ a) (y ∷ b) (z ∷ c) h k = ground (arith, codes_le_trans a b c)

codes_lt_asym : (a b : List ℕ) → codes_lt a b ≡ true → codes_lt b a ≡ false
unfolding codes_lt
codes_lt_asym [] [] h = cc
codes_lt_asym [] (y ∷ b) h = refl
codes_lt_asym (x ∷ a) [] h = cc
codes_lt_asym (x ∷ a) (y ∷ b) h = ground (arith, codes_lt_asym a b)

pub text_le_trans :
    (a b c : String) → text_lt b a ≡ false → text_lt c b ≡ false → text_lt c a ≡ false
unfolding text_lt
text_le_trans a b c = codes_le_trans (codes a) (codes b) (codes c)

pub text_lt_asym : (a b : String) → text_lt a b ≡ true → text_lt b a ≡ false
unfolding text_lt
text_lt_asym a b = codes_lt_asym (codes a) (codes b)

pub text_lt_trans : (a b c : String) → text_lt a b ≡ true → text_lt b c ≡ true → text_lt a c ≡ true
unfolding text_lt
text_lt_trans a b c = codes_lt_trans (codes a) (codes b) (codes c)

pub text_lt_irrefl : (a : String) → text_lt a a ≡ false
unfolding text_lt
text_lt_irrefl a = codes_lt_irrefl (codes a)

codes-equal : (a b : List ℕ) → codes_lt a b ≡ false → codes_lt b a ≡ false → a ≡ b
unfolding codes_lt
codes-equal [] [] h k = refl
codes-equal [] (y ∷ b) h k = cc
codes-equal (x ∷ a) [] h k = cc
codes-equal (x ∷ a) (y ∷ b) h k = ground (arith, codes-equal a b)

codes-injective : (a b : String) → codes a ≡ codes b → a ≡ b
codes-injective String.[] String.[] h = refl
codes-injective String.[] (String.◌∷◌ d b) h = cc
codes-injective (String.◌∷◌ c a) String.[] h = cc
codes-injective (String.◌∷◌ c a) (String.◌∷◌ d b) h =
    let (same, rest) = cons-eq-cons.0 h in
    rw (Char-path c d same) (ap (String.◌∷◌ d) (codes-injective a b rest))

-- Of two different texts one stands before the other.
pub text_lt_total : (a b : String) → text_lt a b ≡ false → (a == b) ≡ false → text_lt b a ≡ true
unfolding text_lt
text_lt_total a b h k = elim (Bool-cases (codes_lt (codes b) (codes a))) [
  | inl e ↦ e
  | inr e ↦ ground (arith, eq_iff a b, codes-injective a b (codes-equal (codes a) (codes b) h e))
]

abbrev Before : String → String → Type 0
Before a b = text_lt a b ≡ true

sorted_after-Pairwise :
    (previous : String) (values : List String)
    → sorted_after (some previous) values ≡ true
    → Pairwise Before (previous ∷ values)
unfolding sorted_after
sorted_after-Pairwise previous [] h = ((λ y i. elim i [ ]), tt)
sorted_after-Pairwise previous (value ∷ values) h =
    let next : text_lt previous value ≡ true = ground arith in
    let rest = sorted_after-Pairwise value values (ground arith) in
    (λ y i. above y i next rest.0, rest)
  where
    above :
        (y : String)
        → In y (value ∷ values)
        → text_lt previous value ≡ true
        → ((z : String) → In z values → Before value z)
        → Before previous y
    above y (here e) next all_after = rw e next
    above y (there i) next all_after = text_lt_trans previous value y next (all_after y i)

Pairwise-sorted_after :
    (previous : String) (values : List String)
    → Pairwise Before (previous ∷ values)
    → sorted_after (some previous) values ≡ true
unfolding sorted_after
Pairwise-sorted_after previous [] h = refl
Pairwise-sorted_after previous (value ∷ values) (first, rest) =
    ground (arith, first value (here refl), Pairwise-sorted_after value values rest)

-- The check passes exactly where each text stands before all that follow it in the order of their
-- code points.
is_strictly_sorted_unique-Pairwise :
    (values : List String)
    → (is_strictly_sorted_unique values ≡ true) ↔ Pairwise (λ a b. text_lt a b ≡ true) values
unfolding is_strictly_sorted_unique sorted_after
is_strictly_sorted_unique-Pairwise [] = ((λ _. tt), λ _. refl)
is_strictly_sorted_unique-Pairwise (value ∷ values) =
    (sorted_after-Pairwise value values, Pairwise-sorted_after value values)
