-- ===== src/Base/F64/Arithmetic.antt =====
-- The arithmetic of `f64` that the program uses, rounded to nearest with ties to even. A finite value
-- is a whole number of units of 2 ^ -1074, and a product a whole number of units of 2 ^ -2148.
use Prim.Native.Nat.{ℕ, zero, suc, ◌+◌, ◌-◌, ◌*◌, ◌/◌, ◌%◌, ◌^◌}
use mathlib.Core.Path.{◌≡◌, refl}
use mathlib.Core.Bool.{Bool, false, not, ◌&&◌, ◌||◌}
use package.lmml.Base.Tests.{ltb, eqb, if◌then◌else◌}
use package.lmml.Base.F64.{
  F64, sign_bit, infinity_bits, magnitude, is_negative, is_nan, is_finite, le, zero_f64, one_f64,
}

-- The number of binary digits of `n`, given at least as much fuel.
bit_length : ℕ → ℕ → ℕ
bit_length zero n = 0
bit_length (suc fuel) n = let rest = bit_length fuel (n / 2) in if eqb n 0 then 0 else suc rest

abbrev digits_fuel : ℕ
digits_fuel = 4300

abbrev pub units : F64 → ℕ
units x =
    let e = magnitude x / 2 ^ 52 in
    let m = magnitude x % 2 ^ 52 in if eqb e 0 then m else (2 ^ 52 + m) * 2 ^ (e - 1)

abbrev most : ℕ → ℕ → ℕ
most a b = if ltb a b then b else a

-- The pattern of `n` units of 2 ^ (-1074 - base), without a sign.
round_bits : ℕ → ℕ → ℕ
unfolding bit_length
round_bits base n =
    let k = most base (bit_length digits_fuel n - 53) in
    let q = n / 2 ^ k in
    let r = n % 2 ^ k in
    let up = ltb (2 ^ k) (2 * r) || (eqb (2 ^ k) (2 * r) && eqb (q % 2) 1) in
    let bits = (k - base) * 2 ^ 52 + q + (if up then 1 else 0) in
    if ltb bits infinity_bits then bits else infinity_bits

abbrev signed : Bool → ℕ → F64
signed negative bits = record { bits = if negative then sign_bit + bits else bits }

abbrev pub nan : F64
nan = record { bits = infinity_bits + 2 ^ 51 }

abbrev pub negate : F64 → F64
negate x = signed (not (is_negative x)) (magnitude x)

-- `x.abs()`
unfoldable pub abs : F64 → F64
abs x = signed false (magnitude x)

-- `x.max(y)`: the other one if one is a NaN.
unfoldable pub max : F64 → F64 → F64
unfolding le
max x y = if is_nan x then y else if is_nan y then x else if le x y then y else x

abbrev add_finite : F64 → F64 → (ℕ → ℕ) → F64
add_finite x y round =
    let a = units x in
    let b = units y in
    let m = is_negative x in
    let n = is_negative y in
    if (m && n) || (not m && not n)
    then signed m (round (a + b))
    else if eqb a b
    then zero_f64
    else if ltb a b
    then signed n (round (b - a))
    else signed m (round (a - b))

add : F64 → F64 → F64
unfolding round_bits is_finite
add x y =
    if is_nan x || is_nan y
    then nan
    else if is_finite x && is_finite y
    then add_finite x y (round_bits 0)
    else if is_finite x
    then y
    else if is_finite y
    then x
    else if eqb x.bits y.bits
    then x
    else nan

-- `x - y`
unfoldable pub sub : F64 → F64 → F64
unfolding add
sub x y = add x (negate y)

-- `x * y`
unfoldable pub mul : F64 → F64 → F64
unfolding round_bits is_finite
mul x y =
    let negative = not (is_negative x && is_negative y) && (is_negative x || is_negative y) in
    if is_nan x || is_nan y
    then nan
    else if is_finite x && is_finite y
    then signed negative (round_bits 1074 (units x * units y))
    else if eqb (magnitude x) 0 || eqb (magnitude y) 0
    then nan
    else signed negative infinity_bits

-- `f64::EPSILON` is 2 ^ -52.
abbrev pub epsilon : F64
epsilon = record { bits = 971 * 2 ^ 52 }

abbrev pub eight_f64 : F64
eight_f64 = record { bits = 1026 * 2 ^ 52 }

-- 1.5, 0.1, 0.3 and 0.2 as the compiler writes them.
abbrev tenth : F64
tenth = record { bits = 0x3fb9_9999_9999_999a }

abbrev three_tenths : F64
three_tenths = record { bits = 0x3fd3_3333_3333_3333 }

-- 0.3 - 0.1 is 0.19999999999999998, 0.1 * 8 is 0.8, and 1 - 1 is +0.
arithmetic_tests :
    (sub three_tenths tenth ≡ record { bits = 0x3fc9_9999_9999_9999 })
    × (mul tenth eight_f64 ≡ record { bits = 0x3fe9_9999_9999_999a })
    × (sub one_f64 one_f64 ≡ zero_f64)
    × (mul three_tenths three_tenths ≡ record { bits = 0x3fb7_0a3d_70a3_d70a })
unfolding sub mul
arithmetic_tests = (refl, refl, refl, refl)
