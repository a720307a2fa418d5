-- ===== src/Models/Gguf/Eats.antt =====
-- How many bytes the readers of crates/lmml-models/src/lib.rs take.
use lmml.Base.{
  ℕ, zero, suc, ◌+◌, ◌≤◌, ◌≡◌, refl, Bool, true, false, [], ◌∷◌, arith, if◌then◌else◌, length, ok,
  err,
}
use lmml.Base.Int.{ℤ}
use lmml.Base.Bytes.{from_le_bytes}
use lmml.Models.Types.{
  GgufError, io, invalid_magic, unsupported_value_type, allocation_failed, out_of_fuel, GgufValue,
}
use lmml.Models.Gguf.Reading.{
  Bytes, Read, Reader, feed, ◌>>=◌, pure, iterate, read_exact, read_number, to_signed, read_signed,
}

abbrev pub is_out_of_fuel : GgufError → Bool
is_out_of_fuel out_of_fuel = true
is_out_of_fuel io = false
is_out_of_fuel invalid_magic = false
is_out_of_fuel (unsupported_value_type n) = false
is_out_of_fuel allocation_failed = false

-- At least `count` of the bytes were read, or the error is one of the code.
abbrev pub Eats : {A : Type 0} → (count : ℕ) → Bytes → Read A → Type 0
Eats count bytes (ok (a, rest)) = length rest + count ≤ length bytes
Eats count bytes (err e) = is_out_of_fuel e ≡ false

-- What a reader does on at most `n` bytes.
abbrev pub EatsFrom : {A : Type 0} → (count n : ℕ) → Reader A → Type 0
EatsFrom count n r = (bytes : Bytes) → length bytes ≤ n → Eats count bytes (r bytes)

module _ {A B : Type 0} (f : A → Reader B) where
  pub feed-Eats :
      (count n m : ℕ) (bytes : Bytes) (h : length bytes ≤ n + count) (result : Read A)
      (eaten : Eats count bytes result) (after : (a : A) → EatsFrom m n (f a))
      → Eats m bytes (feed result f)
  feed-Eats count n m bytes h (ok (a, rest)) eaten after =
      weaken (f a rest) (after a rest (ground (arith, h, eaten)))
    where
      weaken : (result : Read B) → Eats m rest result → Eats m bytes result
      weaken (ok (b, more)) e = ground (arith, e, eaten)
      weaken (err e) h = h
  feed-Eats count n m bytes h (err e) eaten after = eaten

module _ {A B : Type 0} (count n : ℕ) (r : Reader A) (f : A → Reader B) where
  pub bind-Eats :
      EatsFrom count (n + count) r
      → ((a : A) → EatsFrom 0 n (f a))
      → EatsFrom 0 (n + count) (r >>= f)
  unfolding ◌>>=◌
  bind-Eats first after bytes h = feed-Eats f count n 0 bytes h (r bytes) (first bytes h) after

module _ {A B : Type 0} (n : ℕ) (r : Reader A) (f : A → Reader B) where
  pub then-Eats : EatsFrom 0 n r → ((a : A) → EatsFrom 0 n (f a)) → EatsFrom 0 n (r >>= f)
  unfolding ◌>>=◌
  then-Eats first after bytes h =
      feed-Eats f 0 n 0 bytes (ground (arith, h)) (r bytes) (first bytes h) after

pub pure-Eats : {A : Type 0} (n : ℕ) (a : A) → EatsFrom 0 n (pure a)
pure-Eats n a bytes h = ground arith

pub if-Eats :
    {A : Type 0} (n : ℕ) (b : Bool) (r s : Reader A)
    → EatsFrom 0 n r
    → EatsFrom 0 n s
    → EatsFrom 0 n (if b then r else s)
if-Eats n true r s hr hs = hr
if-Eats n false r s hr hs = hs

pub iterate-Eats :
    {S : Type 0} (n count : ℕ) (step : S → Reader S)
    → ((s : S) → EatsFrom 0 n (step s))
    → (s : S) → EatsFrom 0 n (iterate count step s)
unfolding iterate
iterate-Eats n zero step h s = pure-Eats n s
iterate-Eats n (suc count) step h s =
    then-Eats n (step s) (iterate count step) (h s) (iterate-Eats n count step h)

pub read_exact-Eats : (count : ℕ) (bytes : Bytes) → Eats count bytes (read_exact count bytes)
unfolding read_exact
read_exact-Eats zero bytes = ground arith
read_exact-Eats (suc count) [] = refl
read_exact-Eats (suc count) (b ∷ bytes) =
    one_more (read_exact count bytes) (read_exact-Eats count bytes)
  where
    one_more :
        (result : Read Bytes)
        → Eats count bytes result
        → Eats (suc count) (b ∷ bytes) (feed result (λ bs. pure (b ∷ bs)))
    one_more (ok (bs, rest)) h = ground (arith, h)
    one_more (err e) h = h

pub read_number-Eats : (width n : ℕ) → EatsFrom width n (read_number width)
unfolding read_number ◌>>=◌
read_number-Eats width n bytes h = number (read_exact width bytes) (read_exact-Eats width bytes)
  where
    number :
        (result : Read Bytes)
        → Eats width bytes result
        → Eats width bytes (feed result (λ buf. pure (from_le_bytes buf)))
    number (ok (bs, rest)) h = h
    number (err e) h = h

pub number-Eats : (width n : ℕ) → EatsFrom 0 n (read_number width)
number-Eats width n bytes h = less (read_number width bytes) (read_number-Eats width n bytes h)
  where
    less : (result : Read ℕ) → Eats width bytes result → Eats 0 bytes result
    less (ok (a, rest)) e = ground (arith, e)
    less (err e) h = h

pub exact-Eats : (width n : ℕ) → EatsFrom 0 n (read_exact width)
exact-Eats width n bytes h = less (read_exact width bytes) (read_exact-Eats width bytes)
  where
    less : (result : Read Bytes) → Eats width bytes result → Eats 0 bytes result
    less (ok (a, rest)) e = ground (arith, e)
    less (err e) h = h

-- A number, and something made of it.
pub made-Eats :
    {A : Type 0} (width n : ℕ) (f : ℕ → A) → EatsFrom 0 n (read_number width >>= λ k. pure (f k))
made-Eats width n f =
    then-Eats n (read_number width) (λ k. pure (f k)) (number-Eats width n) (λ k. pure-Eats n (f k))

pub signed-Eats :
    (width n : ℕ) (f : ℤ → GgufValue) → EatsFrom 0 n (read_signed width >>= λ z. pure (f z))
signed-Eats width n f =
    then-Eats n (read_signed width) (λ z. pure (f z)) (made-Eats width n (to_signed width))
      (λ z. pure-Eats n (f z))
