-- ===== src/Base/Bits.antt =====
-- When bitwise or and exclusive or are zero.
use Prim.Native.Nat.{
  ℕ, zero, suc, ◌/◌, ◌%◌, ◌≤◌, max, differ, digits, bit_or, bit_xor, bit_or-bitwise,
  bit_xor-bitwise,
}
use mathlib.Core.Path.{◌≡◌, refl}
use native.Mathlib.Omega.{arith}

max-zero : (a b : ℕ) → max a b ≡ 0 → (a ≡ 0) × (b ≡ 0)
max-zero zero b h = (refl, ground (arith, h))
max-zero (suc a) zero h = absurd (ground (arith, h))
max-zero (suc a) (suc b) h = absurd (ground (arith, h))

differ-zero : (a b : ℕ) → differ a b ≡ 0 → a ≡ b
differ-zero zero b h = ground (arith, h)
differ-zero (suc a) zero h = absurd (ground (arith, h))
differ-zero (suc a) (suc b) h = ground (arith, differ-zero a b h)

or_digits_zero : (n a b : ℕ) → a ≤ n → digits (λ b. b) max n a b ≡ 0 → (a ≡ 0) × (b ≡ 0)
or_digits_zero zero a b le h = (ground arith, h)
or_digits_zero (suc n) zero b le h = (refl, h)
or_digits_zero (suc n) (suc a) b le h =
    let high = or_digits_zero n (suc a / 2) (b / 2) (omega arith) (omega (arith, h)) in
    let low = max-zero (suc a % 2) (b % 2) (omega (arith, h)) in
    (omega (arith, high.0, low.0), omega (arith, high.1, low.1))

xor_digits_zero : (n a b : ℕ) → a ≤ n → digits (λ b. b) differ n a b ≡ 0 → a ≡ b
xor_digits_zero zero a b le h = ground (arith, h)
xor_digits_zero (suc n) zero b le h = ground (arith, h)
xor_digits_zero (suc n) (suc a) b le h =
    let high = xor_digits_zero n (suc a / 2) (b / 2) (omega arith) (omega (arith, h)) in
    let low = differ-zero (suc a % 2) (b % 2) (omega (arith, h)) in omega (arith, high, low)

pub bit_or-zero : (a b : ℕ) → bit_or a b ≡ 0 → (a ≡ 0) × (b ≡ 0)
bit_or-zero a b h = or_digits_zero a a b (omega arith) (omega (arith, h, bit_or-bitwise a b))

pub bit_xor-zero : (a b : ℕ) → bit_xor a b ≡ 0 → a ≡ b
bit_xor-zero a b h = xor_digits_zero a a b (omega arith) (omega (arith, h, bit_xor-bitwise a b))

differ_self : (a : ℕ) → differ a a ≡ 0
differ_self zero = refl
differ_self (suc a) = differ_self a

xor_digits_self : (n a : ℕ) → a ≤ n → digits (λ b. b) differ n a a ≡ 0
xor_digits_self zero a le = omega arith
xor_digits_self (suc n) zero le = refl
xor_digits_self (suc n) (suc a) le =
    omega (arith, xor_digits_self n (suc a / 2) (omega arith), differ_self (suc a % 2))

pub bit_xor_self : (a : ℕ) → bit_xor a a ≡ 0
bit_xor_self a = omega (arith, bit_xor-bitwise a a, xor_digits_self a a (omega arith))
