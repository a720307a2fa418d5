-- ===== src/Models/Tests.antt =====
-- A small GGUF file, with a nested array, and what the parser makes of it and of its beginnings.
use lmml.Base.{arith, String, ◌≡◌, refl, ◌≢◌, true, some, [], ◌∷◌, ◌++◌, length, take, ok, err}
use lmml.Base.Bytes.{le_bytes}
use lmml.Base.Text.{codes, has_prefix, utf8}
use lmml.Base.Maps.{insert_text}
use lmml.Base.Utf8.{from_utf8_lossy}
use lmml.Models.Types.{GgufMetadata, io, allocation_failed, out_of_fuel}
use lmml.Models.Gguf.{value_to_u32, apply_metadata_value}
use lmml.Models.Gguf.Reading.{Bytes, ◌>>=◌, iterate, read_exact, read_number, read_string}
use lmml.Models.Gguf.Parse.{
  insert_number, tensor_type_to_quant, quant_from_tensor_types, classify_runtime, initial, magic,
  parse_gguf, parse_gguf_reader,
}
use lmml.Models.Gguf.Steady.{parse_gguf-steady}
use lmml.Models.Gguf.RoundTrip.{short, flag, text}
use lmml.Models.Gguf.Header.{Header, header_bytes, summary, FitsHeader, parse_gguf-header_bytes}

abbrev length_and_codes : String → Bytes
length_and_codes s = le_bytes 8 (length (codes s)) ++ codes s

abbrev entries : Bytes
entries =
    length_and_codes "general.name"
    ++ (le_bytes 4 8
        ++ (length_and_codes "tiny"
            ++ (length_and_codes "llama.context_length"
                ++ (le_bytes 4 5
                    ++ (le_bytes 4 4096
                        ++ (length_and_codes "a"
                            ++ (le_bytes 4 9
                                ++ (le_bytes 4 9
                                    ++ (le_bytes 8 1
                                        ++ (le_bytes 4 1
                                            ++ (le_bytes 8 2 ++ (255 ∷ 1 ∷ []))))))))))))

abbrev tensors : Bytes
tensors =
    length_and_codes "t"
    ++ (le_bytes 4 2 ++ (le_bytes 8 3 ++ (le_bytes 8 4 ++ (le_bytes 4 12 ++ le_bytes 8 0))))

abbrev file : Bytes
file = magic ++ (le_bytes 4 3 ++ (le_bytes 8 1 ++ (le_bytes 8 3 ++ (entries ++ tensors))))

abbrev header : GgufMetadata
header = record (initial 3 1) {
  name = some "tiny";
  context_length = some 4096;
  quant = some "Q4_K";
  tensor_types = 12 ∷ [];
}

parsed : parse_gguf 100 (file ++ (7 ∷ [])) ≡ ok (header, 7 ∷ [])
unfolding parse_gguf ◌>>=◌ read_exact read_number iterate read_string apply_metadata_value
    insert_number quant_from_tensor_types classify_runtime from_utf8_lossy has_prefix value_to_u32
    tensor_type_to_quant insert_text
parsed = refl

cut_short : parse_gguf 100 (take 60 file) ≡ err io
unfolding parse_gguf ◌>>=◌ read_exact read_number iterate read_string
cut_short = refl

too_long : parse_gguf 3 file ≡ err allocation_failed
unfolding parse_gguf ◌>>=◌ read_exact read_number iterate read_string
too_long = refl

parse_gguf-steady_example :
    (parse_gguf_reader 100 1000 file ≡ parse_gguf 100 file)
    × (parse_gguf_reader 100 1000 file ≢ err out_of_fuel)
parse_gguf-steady_example = parse_gguf-steady 100 file 1000 (ground arith)

abbrev small : Header
small = record {
  version = 3;
  entries =
      record { key = "general.name"; value = text "tiny" }
      ∷ record { key = "llama.block_count"; value = short 300 }
      ∷ record { key = "x"; value = flag true }
      ∷ [];
  tensors = record { name = "t"; dimensions = 3 ∷ 4 ∷ []; tensor_type = 12; offset = 64 } ∷ [];
}

small-FitsHeader : FitsHeader 100 small
unfolding utf8
small-FitsHeader = ground arith

parse_gguf-header_bytes_example :
    parse_gguf 100 (header_bytes small ++ (9 ∷ [])) ≡ ok (summary small, 9 ∷ [])
parse_gguf-header_bytes_example = parse_gguf-header_bytes 100 small small-FitsHeader (9 ∷ [])
