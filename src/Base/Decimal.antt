-- ===== src/Base/Decimal.antt =====
-- The decimal text of a `u64`, as `Display` prints it and `str::parse` reads it.
use Prim.Native.Nat.{ℕ, zero, suc, ◌+◌, ◌-◌, ◌*◌, ◌/◌, ◌%◌, ◌^◌, ◌≤◌, ◌<◌}
use mathlib.Core.Path.{◌≡◌, refl}
use mathlib.Core.Bool.{Bool, ◌&&◌}
use mathlib.Core.List.{List, [], ◌∷◌}
use mathlib.Core.Option.{Option, none, some}
use mathlib.Core.Logic.{inl, inr}
use native.Mathlib.Omega.{arith}
use package.lmml.Base.Tests.{ltb, leb, eqb, if◌then◌else◌, Bool-cases}
use package.lmml.Base.Lists.{All}

abbrev pub max_u64 : ℕ
max_u64 = 2 ^ 64 - 1

-- The digits of `n` before those of `out`; the fuel bounds their number.
decimal_from : (fuel n : ℕ) → List ℕ → List ℕ
decimal_from zero n out = out
decimal_from (suc fuel) n out =
    let more = decimal_from fuel (n / 10) ((b'0' + n % 10) ∷ out) in
    if ltb n 10 then (b'0' + n) ∷ out else more

-- `n.to_string()`: each round divides `n` by ten, so `n` and one more rounds are enough.
unfoldable pub print_u64 : ℕ → List ℕ
unfolding decimal_from
print_u64 n = decimal_from (suc n) n []

is_digit : ℕ → Bool
is_digit c = leb b'0' c && leb c b'9'

unfoldable pub scan_u64 : List ℕ → ℕ → Option ℕ
unfolding is_digit
scan_u64 [] n = some n
scan_u64 (c ∷ cs) n =
    let n' = n * 10 + (c - b'0') in
    let rest = scan_u64 cs n' in if is_digit c && leb n' max_u64 then rest else none

-- `text.parse::<u64>()`: one sign `+` may stand in front of the digits.
unfoldable pub parse_u64 : List ℕ → Option ℕ
unfolding scan_u64
parse_u64 [] = none
parse_u64 (c ∷ []) = scan_u64 (c ∷ []) 0
parse_u64 (c ∷ d ∷ cs) = if eqb c b'+' then scan_u64 (d ∷ cs) 0 else scan_u64 (c ∷ d ∷ cs) 0

abbrev pub AreDigits : List ℕ → Type 0
AreDigits = All (λ c. (b'0' ≤ c) × (c ≤ b'9'))

decimal_from-AreDigits :
    (fuel n : ℕ) (out : List ℕ) → AreDigits out → AreDigits (decimal_from fuel n out)
unfolding decimal_from
decimal_from-AreDigits zero n out h = h
decimal_from-AreDigits (suc fuel) n out h =
    let digit : (b'0' ≤ b'0' + n % 10) × (b'0' + n % 10 ≤ b'9') = omega arith in
    elim (Bool-cases (ltb n 10)) [
      | inl e ↦ rw e (ground arith, h)
      | inr e ↦ rw e (decimal_from-AreDigits fuel (n / 10) ((b'0' + n % 10) ∷ out) (digit, h))
    ]

-- Every character that is printed is a digit.
pub print_u64-AreDigits : (n : ℕ) → AreDigits (print_u64 n)
unfolding print_u64
print_u64-AreDigits n = decimal_from-AreDigits (suc n) n [] tt

scan-decimal_from :
    (fuel n : ℕ) (out : List ℕ)
    → n < fuel
    → n ≤ max_u64
    → scan_u64 (decimal_from fuel n out) 0 ≡ scan_u64 out n
unfolding decimal_from scan_u64
scan-decimal_from zero n out h k = absurd (omega arith)
scan-decimal_from (suc fuel) n out h k = elim (Bool-cases (ltb n 10)) [
  | inl e ↦ rw e (ground arith)
  | inr e ↦
      rw (e, scan-decimal_from fuel (n / 10) ((b'0' + n % 10) ∷ out) (ground arith) (omega arith))
        (ground arith)
]

parse-scan : (c : ℕ) (cs : List ℕ) → b'0' ≤ c → parse_u64 (c ∷ cs) ≡ scan_u64 (c ∷ cs) 0
unfolding parse_u64
parse-scan c [] h = refl
parse-scan c (d ∷ cs) h = ground arith

decimal_from-ne_nil :
    (fuel n : ℕ) (d : ℕ) (out : List ℕ)
    → (c : ℕ) × (cs : List ℕ) × (decimal_from fuel n (d ∷ out) ≡ c ∷ cs)
unfolding decimal_from
decimal_from-ne_nil zero n d out = (d, out, refl)
decimal_from-ne_nil (suc fuel) n d out = elim (Bool-cases (ltb n 10)) [
  | inl e ↦ (b'0' + n, d ∷ out, rw e)
  | inr e ↦ rw e (decimal_from-ne_nil fuel (n / 10) (b'0' + n % 10) (d ∷ out))
]

print_u64-cons : (n : ℕ) → (c : ℕ) × (cs : List ℕ) × (print_u64 n ≡ c ∷ cs)
unfolding print_u64 decimal_from
print_u64-cons n = elim (Bool-cases (ltb n 10)) [
  | inl e ↦ (b'0' + n, [], rw e)
  | inr e ↦ rw e (decimal_from-ne_nil n (n / 10) (b'0' + n % 10) [])
]

scan_of_digits :
    (ds : List ℕ)
    → AreDigits ds
    → ((c : ℕ) × (cs : List ℕ) × (ds ≡ c ∷ cs))
    → parse_u64 ds ≡ scan_u64 ds 0
scan_of_digits [] h (c, cs, e) = cc
scan_of_digits (d ∷ ds) h some_digit = parse-scan d ds h.0.0

-- Every `u64` is read back from its decimal text.
pub parse-print : (n : ℕ) → n ≤ max_u64 → parse_u64 (print_u64 n) ≡ some n
unfolding print_u64 scan_u64
parse-print n h =
    rw (scan_of_digits (print_u64 n) (print_u64-AreDigits n) (print_u64-cons n))
      (scan-decimal_from (suc n) n [] (omega arith) h)
