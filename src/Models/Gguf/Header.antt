-- ===== src/Models/Gguf/Header.antt =====
-- The bytes of a GGUF header, against `parse_gguf_reader` of crates/lmml-models/src/lib.rs.
use lmml.Base.{◌≡◌, ok, ℕ, suc, ◌^◌, ◌<◌, String, List, [], ◌∷◌, ◌++◌, length, All}
use lmml.Base.Bytes.{le_bytes}
use lmml.Models.Types.{GgufMetadata}
use lmml.Models.Gguf.Reading.{Bytes, ◌>>=◌, pure, iterate, read_exact, read_u32, read_u64}
use lmml.Models.Gguf.Parse.{
  initial, finish, magic, read_entry, read_tensor, read_body, parse_gguf_reader, parse_gguf,
}
use lmml.Models.Gguf.Format.{
  Reads, bind-Reads, read_exact-Reads, read_number-Reads, Tensor, tensor_bytes, FitsTensor,
}
use lmml.Models.Gguf.RoundTrip.{
  map-Reads, concat_bytes, fold, iterate-Reads, Entry, entry_bytes, note_entry, note, FitsEntry,
  read_entry-Reads, read_tensor-Reads,
}

-- A header: its version, the metadata and the tensors.
pub record Header : Type 0 where
  pub version : ℕ
  pub entries : List Entry
  pub tensors : List Tensor

abbrev pub header_bytes : Header → Bytes
header_bytes h =
    magic
    ++ (le_bytes 4 h.version
        ++ (le_bytes 8 (length h.tensors)
            ++ (le_bytes 8 (length h.entries)
                ++ (concat_bytes entry_bytes h.entries ++ concat_bytes tensor_bytes h.tensors))))

-- The metadata are taken in the order of the entries, then the tensors in their order.
abbrev pub summary : Header → GgufMetadata
summary h =
    finish
      (fold note (fold note_entry (initial h.version (length h.tensors)) h.entries, []) h.tensors)

module _ (memory : ℕ) where
  abbrev pub FitsHeader : Header → Type 0
  FitsHeader h =
      (h.version < 256 ^ 4)
      × (length h.tensors < 256 ^ 8)
      × (length h.entries < 256 ^ 8)
      × All (FitsEntry memory) h.entries
      × All (FitsTensor memory) h.tensors

  entries-Reads :
      (fuel : ℕ) (es : List Entry)
      → All (FitsEntry memory) es
      → All
          (λ e.
            (m : GgufMetadata)
            → Reads (read_entry memory (suc fuel) m) (entry_bytes e) (note_entry m e))
          es
  entries-Reads fuel [] h = h
  entries-Reads fuel (e ∷ es) h = (read_entry-Reads memory fuel e h.0, entries-Reads fuel es h.1)

  tensors-Reads :
      (ts : List Tensor)
      → All (FitsTensor memory) ts
      → All
          (λ t.
            (state : GgufMetadata × List String)
            → Reads (read_tensor memory state) (tensor_bytes t) (note state t))
          ts
  tensors-Reads [] h = h
  tensors-Reads (t ∷ ts) h = (read_tensor-Reads memory t h.0, tensors-Reads ts h.1)

  loops-Reads :
      (fuel : ℕ) (h : Header)
      → FitsHeader h
      → Reads
          (iterate
              (length h.entries)
              (read_entry memory (suc fuel))
              (initial h.version (length h.tensors))
            >>= λ metadata.
                iterate (length h.tensors) (read_tensor memory) (metadata, []) >>= λ state.
                pure (finish state))
          (concat_bytes entry_bytes h.entries ++ concat_bytes tensor_bytes h.tensors)
          (summary h)
  loops-Reads fuel h fits =
      bind-Reads
        (iterate (length h.entries) (read_entry memory (suc fuel))
          (initial h.version (length h.tensors)))
        _ (concat_bytes entry_bytes h.entries) (concat_bytes tensor_bytes h.tensors)
        (fold note_entry (initial h.version (length h.tensors)) h.entries) (summary h)
        (iterate-Reads (read_entry memory (suc fuel)) entry_bytes note_entry h.entries
          (initial h.version (length h.tensors)) (entries-Reads fuel h.entries fits.3))
        (map-Reads
          (iterate (length h.tensors) (read_tensor memory)
            (fold note_entry (initial h.version (length h.tensors)) h.entries, []))
          finish (concat_bytes tensor_bytes h.tensors)
          (fold note (fold note_entry (initial h.version (length h.tensors)) h.entries, [])
            h.tensors)
          (iterate-Reads (read_tensor memory) tensor_bytes note h.tensors
            (fold note_entry (initial h.version (length h.tensors)) h.entries, [])
            (tensors-Reads h.tensors fits.4)))

  abbrev loop_bytes : Header → Bytes
  loop_bytes h =
      le_bytes 8 (length h.entries)
      ++ (concat_bytes entry_bytes h.entries ++ concat_bytes tensor_bytes h.tensors)

  abbrev body_bytes : Header → Bytes
  body_bytes h = le_bytes 4 h.version ++ (le_bytes 8 (length h.tensors) ++ loop_bytes h)

  body-Reads :
      (fuel : ℕ) (h : Header)
      → FitsHeader h
      → Reads (read_body memory (suc fuel)) (body_bytes h) (summary h)
  unfolding read_body
  body-Reads fuel h fits =
      bind-Reads read_u32 _ (le_bytes 4 h.version) (le_bytes 8 (length h.tensors) ++ loop_bytes h)
        h.version (summary h) (read_number-Reads 4 h.version fits.0)
        (bind-Reads read_u64 _ (le_bytes 8 (length h.tensors)) (loop_bytes h) (length h.tensors)
          (summary h) (read_number-Reads 8 (length h.tensors) fits.1)
          (bind-Reads read_u64 _ (le_bytes 8 (length h.entries)) _ (length h.entries) (summary h)
            (read_number-Reads 8 (length h.entries) fits.2) (loops-Reads fuel h fits)))

  parse-Reads :
      (fuel : ℕ) (h : Header)
      → FitsHeader h
      → Reads (parse_gguf_reader memory (suc fuel)) (header_bytes h) (summary h)
  unfolding parse_gguf_reader
  parse-Reads fuel h fits =
      bind-Reads (read_exact 4) _ magic (body_bytes h) magic (summary h) (read_exact-Reads magic)
        (body-Reads fuel h fits)

  -- A header whose numbers fit their widths and whose texts fit the memory is read back from its bytes,
  -- whatever follows them: the answer is the summary of its metadata and tensors, in their order. The
  -- metadata are texts, booleans, floats and unsigned numbers.
  pub parse_gguf-header_bytes :
      (h : Header)
      → FitsHeader h
      → (rest : Bytes) → parse_gguf memory (header_bytes h ++ rest) ≡ ok (summary h, rest)
  unfolding parse_gguf
  parse_gguf-header_bytes h fits rest = parse-Reads (length (header_bytes h ++ rest)) h fits rest
