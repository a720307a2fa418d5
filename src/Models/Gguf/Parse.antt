-- ===== src/Models/Gguf/Parse.antt =====
-- `read_value` and `parse_gguf_reader` of crates/lmml-models/src/lib.rs. `fuel` bounds the nesting of
-- arrays alone, of which each level reads twelve bytes; `parse_gguf` gives as much of it as there are bytes
-- and one more.
use Prim.Native.String
use lmml.Base.{
  ℕ, zero, suc, String, Bool, true, false, not, ◌&&◌, ◌||◌, Option, none, some, List, [], ◌∷◌, ltb,
  eqb, if◌then◌else◌, length, is_empty, any, retain,
}
use lmml.Base.Text.{codes, starts_with}
use lmml.Base.Maps.{insert_text}
use lmml.Models.Types.{
  GgufRuntimeRequirement, upstream, prism, unsupported, GgufMetadata, invalid_magic,
  unsupported_value_type, out_of_fuel, GgufValue, u8, i8, u16, i16, u32, i32, u64, i64, f32, f64,
  bool, string, array, GgufValues, empty, push_back,
}
use lmml.Models.Gguf.{apply_metadata_value}
use lmml.Models.Gguf.Reading.{
  Bytes, Reader, ◌>>=◌, pure, fail, iterate, read_exact, read_signed, read_u8, read_u16, read_u32,
  read_u64, read_string,
}

-- `set.insert(n)` of a `BTreeSet<u32>`.
unfoldable pub insert_number : ℕ → List ℕ → List ℕ
insert_number n [] = n ∷ []
insert_number n (m ∷ ms) =
    let rest = insert_number n ms in
    if ltb n m then n ∷ m ∷ ms else if eqb n m then m ∷ ms else m ∷ rest

unfoldable pub tensor_type_to_quant : ℕ → Option String
tensor_type_to_quant n =
    if eqb n 0
    then some "F32"
    else if eqb n 1
    then some "F16"
    else if eqb n 2
    then some "Q4_0"
    else if eqb n 3
    then some "Q4_1"
    else if eqb n 6
    then some "Q5_0"
    else if eqb n 7
    then some "Q5_1"
    else if eqb n 8
    then some "Q8_0"
    else if eqb n 10
    then some "Q2_K"
    else if eqb n 11
    then some "Q3_K"
    else if eqb n 12
    then some "Q4_K"
    else if eqb n 13
    then some "Q5_K"
    else if eqb n 14
    then some "Q6_K"
    else if eqb n 15
    then some "Q8_K"
    else if eqb n 42
    then some "Q2_0"
    else if eqb n 142
    then some "PQ2_0"
    else if eqb n 143
    then some "PTQ1_0"
    else none

-- `texts.join("+")`
abbrev join_plus : List String → String
join_plus [] = ""
join_plus (s ∷ []) = s
join_plus (s ∷ t ∷ ts) = String.◌++◌ s (String.◌++◌ "+" (join_plus (t ∷ ts)))

unfoldable pub quant_from_tensor_types : List String → Option String
quant_from_tensor_types [] = none
quant_from_tensor_types (s ∷ ss) = some (join_plus (s ∷ ss))

unfoldable pub classify_runtime : List ℕ → List String → GgufRuntimeRequirement
classify_runtime tensor_types prism_metadata_keys =
    if any (eqb 142) tensor_types
      || any (eqb 143) tensor_types
      || not (is_empty prism_metadata_keys)
    then prism
    else (let unsupported_types = retain (ltb 42) tensor_types in
        if is_empty unsupported_types then upstream else unsupported unsupported_types)

abbrev pub initial : (version tensor_count : ℕ) → GgufMetadata
initial version tensor_count = record {
  version = version;
  tensor_count = tensor_count;
  name = none;
  chat_templates = [];
  architecture = none;
  context_length = none;
  embedding_length = none;
  block_count = none;
  quant = none;
  file_type = none;
  tensor_types = [];
  prism_metadata_keys = [];
  runtime = upstream;
}

abbrev pub note_prism : GgufMetadata → (key : String) → GgufMetadata
note_prism metadata key =
    if starts_with "prism.hadamard." key
    then record metadata { prism_metadata_keys = insert_text key metadata.prism_metadata_keys }
    else metadata

abbrev insert_quant : Option String → List String → List String
insert_quant none quants = quants
insert_quant (some quant) quants = insert_text quant quants

abbrev pub note_tensor : GgufMetadata × List String → ℕ → GgufMetadata × List String
note_tensor (metadata, quant_types) tensor_type = (
  record metadata { tensor_types = insert_number tensor_type metadata.tensor_types },
  insert_quant (tensor_type_to_quant tensor_type) quant_types,
)

abbrev pub finish : GgufMetadata × List String → GgufMetadata
finish (metadata, quant_types) = record metadata {
  quant = quant_from_tensor_types quant_types;
  runtime = classify_runtime metadata.tensor_types metadata.prism_metadata_keys;
}

abbrev pub magic : Bytes
magic = codes "GGUF"

abbrev pub bytes_eq : Bytes → Bytes → Bool
bytes_eq [] [] = true
bytes_eq (a ∷ xs) (b ∷ ys) = eqb a b && bytes_eq xs ys
bytes_eq _ _ = false

module _ (memory : ℕ) where
  -- The arms of `read_value` but that of an array.
  unfoldable pub read_scalar : (value_type : ℕ) → Reader GgufValue
  read_scalar value_type =
      if eqb value_type 0
      then (read_u8 >>= λ n. pure (u8 n))
      else if eqb value_type 1
      then (read_signed 1 >>= λ z. pure (i8 z))
      else if eqb value_type 2
      then (read_u16 >>= λ n. pure (u16 n))
      else if eqb value_type 3
      then (read_signed 2 >>= λ z. pure (i16 z))
      else if eqb value_type 4
      then (read_u32 >>= λ n. pure (u32 n))
      else if eqb value_type 5
      then (read_signed 4 >>= λ z. pure (i32 z))
      else if eqb value_type 6
      then (read_u32 >>= λ bits. pure (f32 bits))
      else if eqb value_type 7
      then (read_u8 >>= λ n. pure (bool (not (eqb n 0))))
      else if eqb value_type 8
      then (read_string memory >>= λ s. pure (string s))
      else if eqb value_type 10
      then (read_u64 >>= λ n. pure (u64 n))
      else if eqb value_type 11
      then (read_signed 8 >>= λ z. pure (i64 z))
      else if eqb value_type 12
      then (read_u64 >>= λ bits. pure (f64 bits))
      else fail (unsupported_value_type value_type)

  unfoldable pub push_item : Reader GgufValue → GgufValues → Reader GgufValues
  push_item read_item values = read_item >>= λ value. pure (push_back values value)

  unfoldable pub read_array : (read_item : ℕ → Reader GgufValue) → Reader GgufValue
  unfolding push_item
  read_array read_item = read_u32 >>= λ inner_type. read_u64 >>= λ len.
      iterate len (push_item (read_item inner_type)) empty >>= λ values. pure (array values)

  unfoldable pub read_value : (fuel : ℕ) → (value_type : ℕ) → Reader GgufValue
  unfolding read_scalar read_array
  read_value zero value_type = if eqb value_type 9 then fail out_of_fuel else read_scalar value_type
  read_value (suc fuel) value_type =
      if eqb value_type 9 then read_array (read_value fuel) else read_scalar value_type

  -- The bodies of the loops over the metadata and the tensors.
  unfoldable pub read_entry : (fuel : ℕ) → GgufMetadata → Reader GgufMetadata
  unfolding read_value
  read_entry fuel metadata = read_string memory >>= λ key. read_u32 >>= λ value_type.
      read_value fuel value_type >>= λ value.
      pure (apply_metadata_value (note_prism metadata key) key value)

  unfoldable pub read_tensor : GgufMetadata × List String → Reader (GgufMetadata × List String)
  read_tensor state = read_string memory >>= λ name. read_u32 >>= λ dimensions.
      iterate dimensions (λ (u : Unit {0}). read_u64 >>= λ dimension. pure tt) tt >>= λ u.
      read_u32 >>= λ tensor_type. read_u64 >>= λ offset. pure (note_tensor state tensor_type)

  unfoldable pub read_body : (fuel : ℕ) → Reader GgufMetadata
  unfolding read_entry read_tensor
  read_body fuel = read_u32 >>= λ version. read_u64 >>= λ tensor_count.
      read_u64 >>= λ metadata_count.
      iterate metadata_count (read_entry fuel) (initial version tensor_count) >>= λ metadata.
      iterate tensor_count read_tensor (metadata, []) >>= λ state. pure (finish state)

  unfoldable pub parse_gguf_reader : (fuel : ℕ) → Reader GgufMetadata
  unfolding read_body
  parse_gguf_reader fuel =
      read_exact 4 >>= λ buf. if bytes_eq buf magic then read_body fuel else fail invalid_magic

  unfoldable pub parse_gguf : Reader GgufMetadata
  unfolding parse_gguf_reader
  parse_gguf bytes = parse_gguf_reader (suc (length bytes)) bytes
