-- ===== src/Models/Gguf/Format.antt =====
-- The bytes that the GGUF format prescribes for numbers, texts and tensors, against the readers of
-- crates/lmml-models/src/lib.rs.
use mathlib.Core.List.{append_assoc}
use lmml.Base.{
  ℕ, zero, suc, ◌/◌, ◌^◌, ◌≤◌, ◌<◌, String, ◌≡◌, refl, ap, subst, false, List, [], ◌∷◌, ◌++◌, arith,
  ltb, if◌then◌else◌, length, All, ok,
}
use lmml.Base.Bytes.{le_bytes, from_le_bytes-le_bytes}
use lmml.Base.Text.{utf8}
use lmml.Base.Utf8.{from_utf8_lossy}
use lmml.Base.Utf8.RoundTrip.{from_utf8_lossy-utf8}
use lmml.Models.Types.{allocation_failed}
use lmml.Models.Gguf.Reading.{
  Bytes, Reader, ◌>>=◌, pure, fail, read_exact, read_number, read_u64, read_string,
}

-- The reader takes these bytes, whatever follows them, as this value.
abbrev pub Reads : {A : Type 0} → Reader A → Bytes → A → Type 0
Reads r bytes a = (rest : Bytes) → r (bytes ++ rest) ≡ ok (a, rest)

pub bind-Reads :
    {A B : Type 0} (r : Reader A) (f : A → Reader B) (one two : Bytes) (a : A) (b : B)
    → Reads r one a
    → Reads (f a) two b
    → Reads (r >>= f) (one ++ two) b
unfolding ◌>>=◌
bind-Reads r f one two a b h k rest = rw (append_assoc one two rest, h (two ++ rest), k rest)

pub read_exact-Reads : (bytes : Bytes) → Reads (read_exact (length bytes)) bytes bytes
unfolding read_exact
read_exact-Reads [] rest = refl
read_exact-Reads (b ∷ bytes) rest = rw (read_exact-Reads bytes rest)

length-le_bytes : (count n : ℕ) → length (le_bytes count n) ≡ count
length-le_bytes zero n = refl
length-le_bytes (suc count) n = ap suc (length-le_bytes count (n / 256))

pub read_number-Reads :
    (width n : ℕ) → n < 256 ^ width → Reads (read_number width) (le_bytes width n) n
unfolding read_number ◌>>=◌
read_number-Reads width n h rest = rw (exact, from_le_bytes-le_bytes width n h)
  where
    exact : read_exact width (le_bytes width n ++ rest) ≡ ok (le_bytes width n, rest)
    exact =
        subst (λ count. read_exact count (le_bytes width n ++ rest) ≡ ok (le_bytes width n, rest))
          (length-le_bytes width n) (read_exact-Reads (le_bytes width n) rest)

-- A text is its length in bytes and the bytes.
abbrev pub text_bytes : String → Bytes
text_bytes s = le_bytes 8 (length (utf8 s)) ++ utf8 s

-- The record of a tensor.
pub record Tensor : Type 0 where
  pub name : String
  pub dimensions : List ℕ
  pub tensor_type : ℕ
  pub offset : ℕ

abbrev pub numbers : List ℕ → Bytes
numbers [] = []
numbers (n ∷ ns) = le_bytes 8 n ++ numbers ns

abbrev pub tensor_bytes : Tensor → Bytes
tensor_bytes t =
    text_bytes t.name
    ++ (le_bytes 4 (length t.dimensions)
        ++ (numbers t.dimensions ++ (le_bytes 4 t.tensor_type ++ le_bytes 8 t.offset)))

module _ (memory : ℕ) where
  abbrev pub FitsMemory : String → Type 0
  FitsMemory s = (length (utf8 s) ≤ memory) × (length (utf8 s) < 256 ^ 8)

  text-Reads :
      (s : String)
      → length (utf8 s) ≤ memory
      → Reads
          (if ltb memory (length (utf8 s))
            then fail allocation_failed
            else (read_exact (length (utf8 s)) >>= λ bytes. pure (from_utf8_lossy bytes)))
          (utf8 s)
          s
  unfolding ◌>>=◌
  text-Reads s h rest = rw (small, read_exact-Reads (utf8 s) rest, from_utf8_lossy-utf8 s)
    where
      small : ltb memory (length (utf8 s)) ≡ false
      small = ground (arith, h)

  -- A text that the memory holds is read back, whatever follows it.
  pub read_string-Reads : (s : String) → FitsMemory s → Reads (read_string memory) (text_bytes s) s
  unfolding read_string
  read_string-Reads s h =
      bind-Reads read_u64 _ (le_bytes 8 (length (utf8 s))) (utf8 s) (length (utf8 s)) s
        (read_number-Reads 8 (length (utf8 s)) h.1) (text-Reads s h.0)

  abbrev pub FitsTensor : Tensor → Type 0
  FitsTensor t =
      FitsMemory t.name
      × (length t.dimensions < 256 ^ 4)
      × All (λ n. n < 256 ^ 8) t.dimensions
      × (t.tensor_type < 256 ^ 4)
      × (t.offset < 256 ^ 8)
