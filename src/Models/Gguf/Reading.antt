-- ===== src/Models/Gguf/Reading.antt =====
-- Reading of the bytes of a GGUF file: the `read_*` functions of crates/lmml-models/src/lib.rs for numbers
-- and texts. A reader takes the bytes that are left, up to the end of the file or the first failure.
use lmml.Base.{
  ℕ, zero, suc, ◌-◌, ◌/◌, ◌^◌, String, List, [], ◌∷◌, ltb, if◌then◌else◌, Result, ok, err,
}
use lmml.Base.Int.{ℤ, pos, negsuc}
use lmml.Base.Bytes.{from_le_bytes}
use lmml.Base.Utf8.{from_utf8_lossy}
use lmml.Models.Types.{GgufError, io, allocation_failed}

abbrev pub Bytes : Type 0
Bytes = List ℕ

abbrev pub Read {ℓ} : Type ℓ → Type ℓ
Read A = Result GgufError (A × Bytes)

abbrev pub Reader {ℓ} : Type ℓ → Type ℓ
Reader A = Bytes → Read A

module _ {ℓ κ} {A : Type ℓ} {B : Type κ} where
  abbrev pub feed : Read A → (A → Reader B) → Read B
  feed (ok (a, rest)) f = f a rest
  feed (err e) f = err e

  infixl 5 ◌>>=◌
  unfoldable pub ◌>>=◌ : Reader A → (A → Reader B) → Reader B
  ◌>>=◌ r f bytes = feed (r bytes) f

abbrev pub pure {ℓ} : {A : Type ℓ} → A → Reader A
pure a bytes = ok (a, bytes)

abbrev pub fail {ℓ} : {A : Type ℓ} → GgufError → Reader A
fail e bytes = err e

-- `for _ in 0..count`
module _ {ℓ} {S : Type ℓ} where
  unfoldable pub iterate : (count : ℕ) → (S → Reader S) → S → Reader S
  iterate zero step s = pure s
  iterate (suc count) step s = step s >>= iterate count step

-- `reader.read_exact(&mut [0_u8; count])`
unfoldable pub read_exact : (count : ℕ) → Reader Bytes
read_exact zero bytes = ok ([], bytes)
read_exact (suc count) [] = err io
read_exact (suc count) (b ∷ bytes) = feed (read_exact count bytes) (λ bs. pure (b ∷ bs))

unfoldable pub read_number : (width : ℕ) → Reader ℕ
read_number width = read_exact width >>= λ buf. pure (from_le_bytes buf)

-- The signed number of as many bytes, in two's complement.
abbrev pub to_signed : (width : ℕ) → ℕ → ℤ
to_signed width n = if ltb n (256 ^ width / 2) then pos n else negsuc (256 ^ width - 1 - n)

abbrev pub read_signed : (width : ℕ) → Reader ℤ
read_signed width = read_number width >>= λ n. pure (to_signed width n)

abbrev pub read_u8 : Reader ℕ
read_u8 = read_number 1

abbrev pub read_u16 : Reader ℕ
read_u16 = read_number 2

abbrev pub read_u32 : Reader ℕ
read_u32 = read_number 4

abbrev pub read_u64 : Reader ℕ
read_u64 = read_number 8

-- `vec![0_u8; len]`, and the text of the bytes that are read into it. `memory` is the size of the largest
-- vector that can be allocated.
unfoldable pub read_string : (memory : ℕ) → Reader String
read_string memory = read_u64 >>= λ len.
    if ltb memory len
    then fail allocation_failed
    else (read_exact len >>= λ bytes. pure (from_utf8_lossy bytes))
