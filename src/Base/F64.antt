-- ===== src/Base/F64.antt =====
-- `f64` as its bit pattern, a number below 2 ^ 64: the sign, eleven bits of exponent and 52 bits of
-- mantissa. Comparisons are those of IEEE 754: none holds of a NaN, and the two zeros are equal.
pub mod Arithmetic
use Prim.Native.Nat.{ℕ, ◌+◌, ◌-◌, ◌*◌, ◌/◌, ◌%◌, ◌^◌}
use mathlib.Core.Path.{◌≡◌, refl}
use mathlib.Core.Bool.{Bool, true, false, not, ◌&&◌, ◌||◌}
use package.lmml.Base.Tests.{ltb, leb, eqb, if◌then◌else◌}

pub record F64 : Type 0 where
  pub bits : ℕ

abbrev pub sign_bit : ℕ
sign_bit = 2 ^ 63

-- The pattern of +∞: all ones in the exponent, none in the mantissa.
abbrev pub infinity_bits : ℕ
infinity_bits = 2047 * 2 ^ 52

abbrev pub magnitude : F64 → ℕ
magnitude x = x.bits % sign_bit

abbrev pub is_negative : F64 → Bool
is_negative x = leb sign_bit x.bits

abbrev pub is_nan : F64 → Bool
is_nan x = ltb infinity_bits (magnitude x)

unfoldable pub is_finite : F64 → Bool
is_finite x = ltb (magnitude x) infinity_bits

abbrev ordered : Bool → Bool → ℕ → ℕ → (ℕ → ℕ → Bool) → Bool → Bool
ordered false false a b test mixed = test a b
ordered true true a b test mixed = test b a
ordered true false a b test mixed = mixed
ordered false true a b test mixed = eqb a 0 && eqb b 0 && test 0 0

-- `x < y`
unfoldable pub lt : F64 → F64 → Bool
lt x y =
    not (is_nan x)
    && not (is_nan y)
    && ordered (is_negative x) (is_negative y) (magnitude x) (magnitude y) ltb
        (not (eqb (magnitude x) 0 && eqb (magnitude y) 0))

-- `x <= y`
unfoldable pub le : F64 → F64 → Bool
le x y =
    not (is_nan x)
    && not (is_nan y)
    && ordered (is_negative x) (is_negative y) (magnitude x) (magnitude y) leb true

-- `x == y`
unfoldable pub eq : F64 → F64 → Bool
eq x y =
    not (is_nan x)
    && not (is_nan y)
    && (eqb x.bits y.bits || (eqb (magnitude x) 0 && eqb (magnitude y) 0))

abbrev pub zero_f64 : F64
zero_f64 = record { bits = 0 }

abbrev pub one_f64 : F64
one_f64 = record { bits = 1023 * 2 ^ 52 }
