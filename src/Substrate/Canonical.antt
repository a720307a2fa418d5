-- ===== src/Substrate/Canonical.antt =====
-- Canonical manifests: `validate_substrate_manifest`, `manifest_hash`, `seal_manifest` and
-- `is_strictly_sorted_unique` of crates/lmml-substrate/src/storage.rs, and the tokenizer hash of
-- crates/lmml-substrate/src/lib.rs.
pub mod Order
pub mod Inventory
pub mod Seal
use Prim.Native.String.{len}
use Prim.Native.String
use lmml.Base.{
  ℕ, zero, suc, ◌+◌, ◌*◌, ◌/◌, ◌%◌, ◌^◌, String, Bool, true, false, not, ◌&&◌, ◌||◌, ◌==◌, eqb, ltb,
  Option, none, some, List, [], ◌∷◌, ◌++◌, map, length, is_empty, any, retain, ok, ◌>>=◌, ◌>>◌,
  reject_if, for_each, ok_or, if◌then◌else◌,
}
use lmml.Base.Bytes.{le_bytes}
use lmml.Base.Text.{text_lt, utf8}
use lmml.Substrate.Types.{
  Hash256, SubstrateManifest, TensorDescriptor, ShardManifest, AuxiliaryFileManifest,
}
use lmml.Substrate.Errors.{Checked, invalid_substrate_manifest, manifest_mismatch, serialize}
use lmml.Substrate.Identifiers.{validate_schema_version, validate_identifier}
use lmml.Substrate.Disk.{Bytes}
use lmml.Substrate.Platform.{Platform}

abbrev pub u64_end : ℕ
u64_end = 2 ^ 64

abbrev pub checked_mul : ℕ → ℕ → Option ℕ
checked_mul a b = if ltb (a * b) u64_end then some (a * b) else none

abbrev pub checked_add : ℕ → ℕ → Option ℕ
checked_add a b = if ltb (a + b) u64_end then some (a + b) else none

-- `shape.iter().try_fold(count, |count, dimension| count.checked_mul(*dimension))`
unfoldable pub product_from : ℕ → List ℕ → Option ℕ
product_from count [] = some count
product_from count (dimension ∷ shape) = elim (checked_mul count dimension) [
  | none ↦ none
  | some count' ↦ product_from count' shape
]

unfoldable pub parameter_count_from : ℕ → List TensorDescriptor → Option ℕ
unfolding product_from
parameter_count_from total [] = some total
parameter_count_from total (tensor ∷ tensors) = elim (product_from 1 tensor.shape) [
  | none ↦ none
  | some tensor_count ↦
      elim (if eqb tensor_count tensor.parameter_count
        then checked_add total tensor_count
        else none) [ none ↦ none | some total' ↦ parameter_count_from total' tensors ]
]

unfoldable pub sorted_after : Option String → List String → Bool
sorted_after previous [] = true
sorted_after none (value ∷ values) = sorted_after (some value) values
sorted_after (some previous) (value ∷ values) =
    if not (text_lt previous value) then false else sorted_after (some value) values

unfoldable pub is_strictly_sorted_unique : List String → Bool
unfolding sorted_after
is_strictly_sorted_unique values = sorted_after none values

abbrev pub texts_eq : List String → List String → Bool
texts_eq [] [] = true
texts_eq (a ∷ xs) (b ∷ ys) = (a == b) && texts_eq xs ys
texts_eq _ _ = false

unfoldable pub is_tokenizer_file : String → Bool
is_tokenizer_file filename =
    filename == "tokenizer.json"
    || filename == "tokenizer_config.json"
    || filename == "tokenizer.model"
    || filename == "sentencepiece.bpe.model"
    || filename == "spiece.model"
    || filename == "vocab.json"
    || filename == "merges.txt"
    || filename == "chat_template.jinja"
    || filename == "special_tokens_map.json"
    || filename == "added_tokens.json"

abbrev hashed_records : List AuxiliaryFileManifest → Bytes
hashed_records [] = []
hashed_records (file ∷ files) =
    le_bytes 8 (len file.path)
    ++ (utf8 file.path
        ++ (le_bytes 8 file.size_bytes ++ (utf8 file.sha256 ++ hashed_records files)))

-- The body of the loop over the shards.
unfoldable pub validate_shard : List TensorDescriptor → ShardManifest → Checked (Unit {0})
validate_shard tensors shard = do
  reject_if (not (is_strictly_sorted_unique shard.tensor_names)) (
      invalid_substrate_manifest
        (String.◌++◌ "tensor names for shard " (String.◌++◌ shard.path " must be uniquely sorted")))
  let recorded =
      map (λ (t : TensorDescriptor). t.name)
        (retain (λ (t : TensorDescriptor). t.shard == shard.path) tensors)
  reject_if (not (texts_eq recorded shard.tensor_names))
      (invalid_substrate_manifest (String.◌++◌ "tensor inventory does not match shard " shard.path))

abbrev pub zero_hash : Hash256
zero_hash = "0000000000000000000000000000000000000000000000000000000000000000"

unfoldable pub validate_parent : Option String → Checked (Unit {0})
validate_parent none = ok tt
validate_parent (some parent) = validate_identifier parent

-- The checks from the counts to the shards, which need no hash.
unfoldable pub validate_inventory : SubstrateManifest → Checked (Unit {0})
validate_inventory manifest = do
  reject_if (is_empty manifest.shards || is_empty manifest.tensors)
      (invalid_substrate_manifest "manifest must contain shards and tensors")
  reject_if (not (eqb manifest.tensor_count (length manifest.tensors)))
      (invalid_substrate_manifest "tensor_count does not match tensor records")
  parameter_count ←
      ok_or (parameter_count_from 0 manifest.tensors)
        (invalid_substrate_manifest "tensor parameter counts are inconsistent or overflow")
  reject_if (not (eqb parameter_count manifest.parameter_count))
      (invalid_substrate_manifest "parameter_count does not match tensor records")
  reject_if
      (not (is_strictly_sorted_unique (map (λ (t : TensorDescriptor). t.name) manifest.tensors)))
      (invalid_substrate_manifest "tensor records must be uniquely sorted by name")
  reject_if (not (is_strictly_sorted_unique (map (λ (s : ShardManifest). s.path) manifest.shards)))
      (invalid_substrate_manifest "shard records must be uniquely sorted by path")
  reject_if
      (not (
        is_strictly_sorted_unique
          (map (λ (f : AuxiliaryFileManifest). f.path) manifest.auxiliary_files)))
      (invalid_substrate_manifest "auxiliary file records must be uniquely sorted by path")
  for_each (validate_shard manifest.tensors) manifest.shards
  reject_if
      (any
        (λ (t : TensorDescriptor).
          not (any (λ (s : ShardManifest). s.path == t.shard) manifest.shards))
        manifest.tensors)
      (invalid_substrate_manifest "tensor references an unknown shard")

module _ (p : Platform) where
  unfoldable pub tokenizer_hash_from_records : List AuxiliaryFileManifest → Option Hash256
  tokenizer_hash_from_records auxiliary_files =
      let tokenizer_files =
        retain (λ (f : AuxiliaryFileManifest). is_tokenizer_file f.path) auxiliary_files in
      if is_empty tokenizer_files then none else some (p.sha256 (hashed_records tokenizer_files))

  unfoldable pub manifest_hash : SubstrateManifest → Checked Hash256
  manifest_hash manifest = do
    bytes ←
        ok_or
          (p.substrate_json.to_vec (record manifest {
            model = record (manifest.model) { canonical_manifest_hash = zero_hash };
          }))
          serialize
    ok (p.sha256 bytes)

  unfoldable pub validate_substrate_manifest : SubstrateManifest → Checked (Unit {0})
  validate_substrate_manifest manifest = do
    validate_schema_version manifest.schema_version
    validate_identifier manifest.model.lineage_id
    validate_parent manifest.model.parent
    validate_inventory manifest
    tokenizer_hash ←
        ok_or (tokenizer_hash_from_records manifest.auxiliary_files)
          (invalid_substrate_manifest "manifest has no tokenizer asset records")
    reject_if (not (tokenizer_hash == manifest.tokenizer_hash))
        (invalid_substrate_manifest "tokenizer_hash does not match auxiliary records")
    expected ← manifest_hash manifest
    reject_if (not (manifest.model.canonical_manifest_hash == expected)) manifest_mismatch

  -- The sealed manifest, and the verdict on it.
  unfoldable pub seal_manifest : SubstrateManifest → Checked SubstrateManifest
  unfolding manifest_hash
  seal_manifest manifest = do
    hash ← manifest_hash manifest
    let sealed = record manifest {
      model = record (manifest.model) { canonical_manifest_hash = hash };
    }
    validate_substrate_manifest sealed
    ok sealed
