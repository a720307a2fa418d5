-- ===== src/Models/Gguf/RoundTrip.antt =====
-- The bytes of the metadata and the tensors of a GGUF file, against `read_entry` and `read_tensor`, the
-- loops of `parse_gguf_reader` of crates/lmml-models/src/lib.rs.
use lmml.Base.{
  ℕ, suc, ◌^◌, ◌<◌, String, ◌≡◌, refl, Bool, true, false, not, List, [], ◌∷◌, ◌++◌, arith, eqb,
  if◌then◌else◌, length, All,
}
use lmml.Base.Bytes.{le_bytes}
use lmml.Models.Types.{GgufMetadata, GgufValue, u8, u16, u32, u64, f32, f64, bool, string}
use lmml.Models.Gguf.{apply_metadata_value}
use lmml.Models.Gguf.Reading.{
  Bytes, Reader, ◌>>=◌, pure, iterate, read_u8, read_u16, read_u32, read_u64, read_string,
}
use lmml.Models.Gguf.Parse.{note_prism, note_tensor, read_value, read_entry, read_tensor}
use lmml.Models.Gguf.Format.{
  Reads, bind-Reads, read_number-Reads, text_bytes, Tensor, numbers, tensor_bytes, FitsMemory,
  read_string-Reads, FitsTensor,
}

module _ {A B : Type 0} (r : Reader A) (f : A → B) (bytes : Bytes) (a : A) where
  pub map-Reads : Reads r bytes a → Reads (r >>= λ x. pure (f x)) bytes (f a)
  unfolding ◌>>=◌
  map-Reads h rest = rw (h rest)

abbrev pub concat_bytes : {X : Type 0} → (X → Bytes) → List X → Bytes
concat_bytes bytes_of [] = []
concat_bytes bytes_of (x ∷ xs) = bytes_of x ++ concat_bytes bytes_of xs

abbrev pub fold : {S X : Type 0} → (S → X → S) → S → List X → S
fold apply s [] = s
fold apply s (x ∷ xs) = fold apply (apply s x) xs

pub iterate-Reads :
    {S X : Type 0} (step : S → Reader S) (bytes_of : X → Bytes) (apply : S → X → S) (xs : List X)
    (s : S)
    → All (λ x. (s : S) → Reads (step s) (bytes_of x) (apply s x)) xs
    → Reads (iterate (length xs) step s) (concat_bytes bytes_of xs) (fold apply s xs)
unfolding iterate
iterate-Reads step bytes_of apply [] s h rest = refl
iterate-Reads step bytes_of apply (x ∷ xs) s h rest =
    bind-Reads (step s) _ (bytes_of x) (concat_bytes bytes_of xs) (apply s x)
      (fold apply (apply s x) xs) (h.0 s) (iterate-Reads step bytes_of apply xs (apply s x) h.1)
      rest

-- A value of the metadata: its type, its bytes, and what they stand for.
pub data Plain : Type 0 where
  byte short int long float double : ℕ → Plain
  flag : Bool → Plain
  text : String → Plain

abbrev pub type_of : Plain → ℕ
type_of (byte n) = 0
type_of (short n) = 2
type_of (int n) = 4
type_of (float n) = 6
type_of (flag b) = 7
type_of (text s) = 8
type_of (long n) = 10
type_of (double n) = 12

abbrev pub plain_bytes : Plain → Bytes
plain_bytes (byte n) = le_bytes 1 n
plain_bytes (short n) = le_bytes 2 n
plain_bytes (int n) = le_bytes 4 n
plain_bytes (float n) = le_bytes 4 n
plain_bytes (flag b) = le_bytes 1 (if b then 1 else 0)
plain_bytes (text s) = text_bytes s
plain_bytes (long n) = le_bytes 8 n
plain_bytes (double n) = le_bytes 8 n

abbrev pub value_of : Plain → GgufValue
value_of (byte n) = u8 n
value_of (short n) = u16 n
value_of (int n) = u32 n
value_of (float n) = f32 n
value_of (flag b) = bool b
value_of (text s) = string s
value_of (long n) = u64 n
value_of (double n) = f64 n

pub record Entry : Type 0 where
  pub key : String
  pub value : Plain

abbrev pub entry_bytes : Entry → Bytes
entry_bytes entry =
    text_bytes entry.key ++ (le_bytes 4 (type_of entry.value) ++ plain_bytes entry.value)

abbrev pub note_entry : GgufMetadata → Entry → GgufMetadata
note_entry metadata entry =
    apply_metadata_value (note_prism metadata entry.key) entry.key (value_of entry.value)

abbrev pub note : GgufMetadata × List String → Tensor → GgufMetadata × List String
note state tensor = note_tensor state tensor.tensor_type

module _ (memory : ℕ) where
  abbrev pub FitsPlain : Plain → Type 0
  FitsPlain (byte n) = n < 256 ^ 1
  FitsPlain (short n) = n < 256 ^ 2
  FitsPlain (int n) = n < 256 ^ 4
  FitsPlain (float n) = n < 256 ^ 4
  FitsPlain (flag b) = Unit
  FitsPlain (text s) = FitsMemory memory s
  FitsPlain (long n) = n < 256 ^ 8
  FitsPlain (double n) = n < 256 ^ 8

  abbrev pub FitsEntry : Entry → Type 0
  FitsEntry entry = FitsMemory memory entry.key × FitsPlain entry.value

  flag_bit : (b : Bool) → not (eqb (if b then 1 else 0) 0) ≡ b
  flag_bit true = refl
  flag_bit false = refl

  read_value-Reads :
      (fuel : ℕ) (v : Plain)
      → FitsPlain v
      → Reads (read_value memory (suc fuel) (type_of v)) (plain_bytes v) (value_of v)
  unfolding read_value
  read_value-Reads fuel (byte n) h = map-Reads read_u8 u8 (le_bytes 1 n) n (read_number-Reads 1 n h)
  read_value-Reads fuel (short n) h =
      map-Reads read_u16 u16 (le_bytes 2 n) n (read_number-Reads 2 n h)
  read_value-Reads fuel (int n) h =
      map-Reads read_u32 u32 (le_bytes 4 n) n (read_number-Reads 4 n h)
  read_value-Reads fuel (float n) h =
      map-Reads read_u32 f32 (le_bytes 4 n) n (read_number-Reads 4 n h)
  read_value-Reads fuel (flag true) h =
      map-Reads read_u8 (λ n. bool (not (eqb n 0))) (le_bytes 1 1) 1
        (read_number-Reads 1 1 (omega arith))
  read_value-Reads fuel (flag false) h =
      map-Reads read_u8 (λ n. bool (not (eqb n 0))) (le_bytes 1 0) 0
        (read_number-Reads 1 0 (omega arith))
  read_value-Reads fuel (text s) h =
      map-Reads (read_string memory) string (text_bytes s) s (read_string-Reads memory s h)
  read_value-Reads fuel (long n) h =
      map-Reads read_u64 u64 (le_bytes 8 n) n (read_number-Reads 8 n h)
  read_value-Reads fuel (double n) h =
      map-Reads read_u64 f64 (le_bytes 8 n) n (read_number-Reads 8 n h)

  type-fits : (v : Plain) → type_of v < 256 ^ 4
  type-fits (byte x) = omega arith
  type-fits (short x) = omega arith
  type-fits (int x) = omega arith
  type-fits (float x) = omega arith
  type-fits (flag x) = omega arith
  type-fits (text x) = omega arith
  type-fits (long x) = omega arith
  type-fits (double x) = omega arith

  pub read_entry-Reads :
      (fuel : ℕ) (entry : Entry)
      → FitsEntry entry
      → (metadata : GgufMetadata)
      → Reads
          (read_entry memory (suc fuel) metadata)
          (entry_bytes entry)
          (note_entry metadata entry)
  unfolding read_entry
  read_entry-Reads fuel entry h metadata =
      bind-Reads (read_string memory) _ (text_bytes entry.key) _ entry.key
        (note_entry metadata entry) (read_string-Reads memory entry.key h.0)
        (bind-Reads read_u32 _ (le_bytes 4 (type_of entry.value)) _ (type_of entry.value)
          (note_entry metadata entry)
          (read_number-Reads 4 (type_of entry.value) (type-fits entry.value))
          (map-Reads (read_value memory (suc fuel) (type_of entry.value))
            (apply_metadata_value (note_prism metadata entry.key) entry.key)
            (plain_bytes entry.value) (value_of entry.value)
            (read_value-Reads fuel entry.value h.1)))

  read_dimensions-Reads :
      (ns : List ℕ)
      → All (λ n. n < 256 ^ 8) ns
      → Reads
          (iterate (length ns) (λ (u : Unit {0}). read_u64 >>= λ dimension. pure tt) tt)
          (numbers ns)
          tt
  unfolding iterate
  read_dimensions-Reads [] h rest = refl
  read_dimensions-Reads (n ∷ ns) h rest =
      bind-Reads (read_u64 >>= λ dimension. pure tt) _ (le_bytes 8 n) (numbers ns) tt tt
        (map-Reads read_u64 (λ dimension. tt) (le_bytes 8 n) n (read_number-Reads 8 n h.0))
        (read_dimensions-Reads ns h.1) rest

  pub read_tensor-Reads :
      (t : Tensor)
      → FitsTensor memory t
      → (state : GgufMetadata × List String)
      → Reads (read_tensor memory state) (tensor_bytes t) (note state t)
  unfolding read_tensor
  read_tensor-Reads t h state =
      bind-Reads (read_string memory) _ (text_bytes t.name) _ t.name (note state t)
        (read_string-Reads memory t.name h.0)
        (bind-Reads read_u32 _ (le_bytes 4 (length t.dimensions)) _ (length t.dimensions)
          (note state t) (read_number-Reads 4 (length t.dimensions) h.1)
          (bind-Reads
            (iterate (length t.dimensions) (λ (u : Unit {0}). read_u64 >>= λ dimension. pure tt) tt)
            _ (numbers t.dimensions) (le_bytes 4 t.tensor_type ++ le_bytes 8 t.offset) tt
            (note state t) (read_dimensions-Reads t.dimensions h.2)
            (bind-Reads read_u32 _ (le_bytes 4 t.tensor_type) (le_bytes 8 t.offset) t.tensor_type
              (note state t) (read_number-Reads 4 t.tensor_type h.3)
              (map-Reads read_u64 (λ offset. note_tensor state t.tensor_type) (le_bytes 8 t.offset)
                t.offset (read_number-Reads 8 t.offset h.4)))))
