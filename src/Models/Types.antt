-- ===== src/Models/Types.antt =====
-- The records of crates/lmml-models/src/lib.rs for the header of a GGUF file. A `BTreeSet` is the list
-- of its elements in ascending order; a float is its bit pattern.
use lmml.Base.{ℕ, String, Bool, Option, none, some, List}
use lmml.Base.Int.{ℤ}
use lmml.Base.Maps.{Map}
use lmml.Compat.Types.{LlamaRuntimeFlavor}

pub data GgufRuntimeRequirement : Type 0 where
  upstream prism : GgufRuntimeRequirement
  unsupported : (tensor_types : List ℕ) → GgufRuntimeRequirement

unfoldable pub flavor : GgufRuntimeRequirement → Option LlamaRuntimeFlavor
flavor upstream = some LlamaRuntimeFlavor.upstream
flavor prism = some LlamaRuntimeFlavor.prism
flavor (unsupported tensor_types) = none

pub record GgufMetadata : Type 0 where
  pub version : ℕ
  pub tensor_count : ℕ
  pub name : Option String
  pub chat_templates : Map String
  pub architecture : Option String
  pub context_length : Option ℕ
  pub embedding_length : Option ℕ
  pub block_count : Option ℕ
  pub quant : Option String
  pub file_type : Option ℕ
  pub tensor_types : List ℕ
  pub prism_metadata_keys : List String
  pub runtime : GgufRuntimeRequirement

-- `io` stands for the end of the file and for every failure to read. The code has neither of the last
-- two: a length that no memory can hold ends the process, and `out_of_fuel` does not arise.
pub data GgufError : Type 0 where
  io invalid_magic : GgufError
  unsupported_value_type : ℕ → GgufError
  allocation_failed out_of_fuel : GgufError

mutual
  pub data GgufValue : Type 0 where
    u8 : ℕ → GgufValue
    i8 : ℤ → GgufValue
    u16 : ℕ → GgufValue
    i16 : ℤ → GgufValue
    u32 : ℕ → GgufValue
    i32 : ℤ → GgufValue
    u64 : ℕ → GgufValue
    i64 : ℤ → GgufValue
    f32 : (bits : ℕ) → GgufValue
    f64 : (bits : ℕ) → GgufValue
    bool : Bool → GgufValue
    string : String → GgufValue
    array : GgufValues → GgufValue

  -- A vector of values.
  pub data GgufValues : Type 0 where
    empty : GgufValues
    item : GgufValue → GgufValues → GgufValues

-- `values.push(value)`
unfoldable pub push_back : GgufValues → GgufValue → GgufValues
push_back empty value = item value empty
push_back (item first values) value = item first (push_back values value)
