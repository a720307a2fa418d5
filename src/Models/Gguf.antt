-- ===== src/Models/Gguf.antt =====
-- `apply_metadata_value` of crates/lmml-models/src/lib.rs: what the metadata of a GGUF file say of the
-- model.
pub mod Reading
pub mod Parse
pub mod Eats
pub mod Fuel
pub mod Steady
pub mod Format
pub mod RoundTrip
pub mod Header
use Prim.Native.String
use lmml.Base.{
  ℕ, ◌-◌, ◌/◌, ◌^◌, String, Bool, ◌||◌, Option, none, some, [], ◌∷◌, ◌==◌, ltb, if◌then◌else◌, any,
  take,
}
use lmml.Base.Int.{ℤ, pos, negsuc}
use lmml.Base.Text.{starts_with}
use lmml.Base.Maps.{upsert}
use lmml.Models.Types.{
  GgufMetadata, GgufValue, u8, i8, u16, i16, u32, i32, u64, i64, f32, f64, bool, string, array,
}

abbrev fits_u32 : ℕ → Option ℕ
fits_u32 n = if ltb n (2 ^ 32) then some n else none

abbrev nonnegative : ℤ → Option ℕ
nonnegative (pos n) = fits_u32 n
nonnegative (negsuc n) = none

unfoldable pub value_to_u32 : GgufValue → Option ℕ
value_to_u32 (u8 n) = some n
value_to_u32 (i8 z) = nonnegative z
value_to_u32 (u16 n) = some n
value_to_u32 (i16 z) = nonnegative z
value_to_u32 (u32 n) = some n
value_to_u32 (i32 z) = nonnegative z
value_to_u32 (u64 n) = fits_u32 n
value_to_u32 (i64 z) = nonnegative z
value_to_u32 (f32 bits) = none
value_to_u32 (f64 bits) = none
value_to_u32 (bool b) = none
value_to_u32 (string s) = none
value_to_u32 (array values) = none

-- `text.ends_with(suffix)`
unfoldable pub ends_with : (suffix text : String) → Bool
ends_with suffix String.[] = suffix == ""
ends_with suffix (String.◌∷◌ c s) =
    let rest = ends_with suffix s in (suffix == String.◌∷◌ c s) || rest

-- The arms of `apply_metadata_value` that take any value.
unfoldable pub apply_number : GgufMetadata → (key : String) → GgufValue → GgufMetadata
unfolding ends_with
apply_number metadata key value =
    if key == "general.file_type"
    then record metadata { file_type = value_to_u32 value }
    else if ends_with ".context_length" key
    then record metadata { context_length = value_to_u32 value }
    else if ends_with ".embedding_length" key
    then record metadata { embedding_length = value_to_u32 value }
    else if ends_with ".block_count" key
    then record metadata { block_count = value_to_u32 value }
    else metadata

abbrev text_of_value : GgufValue → Option String
text_of_value (string s) = some s
text_of_value _ = none

-- The arms that take a text.
abbrev apply_text : GgufMetadata → (key : String) → GgufValue → Option String → GgufMetadata
apply_text metadata key value none = apply_number metadata key value
apply_text metadata key value (some text) =
    if key == "general.name"
    then record metadata { name = some text }
    else if key == "general.architecture"
    then record metadata { architecture = some text }
    else if starts_with "tokenizer.chat_template" key
    then record metadata { chat_templates = upsert (λ _. text) text key metadata.chat_templates }
    else apply_number metadata key value

unfoldable pub apply_metadata_value : GgufMetadata → (key : String) → GgufValue → GgufMetadata
unfolding apply_number
apply_metadata_value metadata key value = apply_text metadata key value (text_of_value value)
