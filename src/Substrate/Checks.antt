-- ===== src/Substrate/Checks.antt =====
-- Small checks that the validators of crates/lmml-substrate share: times, paths, enums and the
-- trainable inventory (`parse_timestamp`, `validate_timestamp`, `validate_trainable_inventory`,
-- `matches_allowlist` and `is_lora_parameter_name` of crates/lmml-substrate/src/lifecycle.rs).
pub mod Inventory
pub mod Enums
use lmml.Base.{
  ℕ, String, Bool, true, false, not, ◌||◌, ◌==◌, eqb, Option, none, some, List, [], ◌∷◌, is_empty,
  any, ok, ◌>>=◌, ◌>>◌, reject_if, ok_or, unwrap_or,
}
use lmml.Base.Text.{codes, contains, has_prefix, strip_suffix, mem_text}
use lmml.Substrate.Types.{
  FilePath, ModelRepresentation, safetensors, gguf, QuantizationKind, f16, bf16, q8_0, q6_k, q4_k_m,
  RuntimeCapability, text_generation, logits, embeddings, hidden_state_observation,
  eleven_tap_observation,
}
use lmml.Substrate.Errors.{Checked, invalid_lifecycle_manifest, unexpected_trainable_parameter}
use lmml.Substrate.Platform.{Platform}

-- `path.is_absolute()` on Unix.
unfoldable pub is_absolute : FilePath → Bool
unfolding has_prefix
is_absolute path = has_prefix (b'/' ∷ []) (codes path)

abbrev pub representation_eq : ModelRepresentation → ModelRepresentation → Bool
representation_eq safetensors safetensors = true
representation_eq gguf gguf = true
representation_eq _ _ = false

abbrev quantization_code : QuantizationKind → ℕ
quantization_code f16 = 0
quantization_code bf16 = 1
quantization_code q8_0 = 2
quantization_code q6_k = 3
quantization_code q4_k_m = 4

abbrev pub quantization_eq : Option QuantizationKind → Option QuantizationKind → Bool
quantization_eq none none = true
quantization_eq (some a) (some b) = eqb (quantization_code a) (quantization_code b)
quantization_eq _ _ = false

abbrev capability_code : RuntimeCapability → ℕ
capability_code text_generation = 0
capability_code logits = 1
capability_code embeddings = 2
capability_code hidden_state_observation = 3
capability_code eleven_tap_observation = 4

abbrev pub capability_eq : RuntimeCapability → RuntimeCapability → Bool
capability_eq a b = eqb (capability_code a) (capability_code b)

unfoldable pub parse_timestamp : Platform → String → Checked ℕ
parse_timestamp p timestamp =
    ok_or (p.rfc3339 timestamp) (invalid_lifecycle_manifest "timestamp must be RFC3339")

unfoldable pub validate_timestamp : Platform → String → Checked (Unit {0})
unfolding parse_timestamp
validate_timestamp p timestamp = do time ← parse_timestamp p timestamp; ok tt

unfoldable pub matches_allowlist : (parameter allowed : String) → Bool
matches_allowlist parameter allowed = elim (strip_suffix b'*' (codes allowed)) [
  | none ↦ parameter == allowed
  | some prefix ↦ has_prefix prefix (codes parameter)
]

unfoldable pub is_lora_parameter_name : String → Bool
unfolding contains
is_lora_parameter_name parameter =
    any (λ (marker : String). contains (codes marker) (codes parameter))
      (".lora_A" ∷ ".lora_B" ∷ ".lora_embedding_A" ∷ ".lora_embedding_B" ∷ [])

-- `seen` is the set of the entries before.
unfoldable pub check_allowlist : (seen approved_allowlist : List String) → Checked (Unit {0})
unfolding strip_suffix contains
check_allowlist seen [] = ok tt
check_allowlist seen (allowed ∷ rest) =
    let prefix = unwrap_or (strip_suffix b'*' (codes allowed)) (codes allowed) in
    reject_if (is_empty prefix || contains (b'*' ∷ []) prefix || mem_text allowed seen) (
      invalid_lifecycle_manifest
        "training allowlist entries must be non-empty, unique, and use only a trailing wildcard")
    >> check_allowlist (allowed ∷ seen) rest

unfoldable pub check_parameters :
    (approved_allowlist seen trainable_parameters : List String) → Checked (Unit {0})
unfolding matches_allowlist is_lora_parameter_name
check_parameters approved_allowlist seen [] = ok tt
check_parameters approved_allowlist seen (parameter ∷ rest) =
    reject_if (parameter == "" || mem_text parameter seen)
      (invalid_lifecycle_manifest "trainable parameter names must be non-empty and unique")
    >> (reject_if (not (is_lora_parameter_name parameter))
          (unexpected_trainable_parameter parameter)
        >> (reject_if
              (not (any (λ allowed. matches_allowlist parameter allowed) approved_allowlist))
              (unexpected_trainable_parameter parameter)
            >> check_parameters approved_allowlist (parameter ∷ seen) rest))

unfoldable pub validate_trainable_inventory :
    (approved_allowlist trainable_parameters : List String) → Checked (Unit {0})
unfolding check_allowlist check_parameters
validate_trainable_inventory approved_allowlist trainable_parameters = do
  reject_if (is_empty approved_allowlist || is_empty trainable_parameters)
      (invalid_lifecycle_manifest "training run requires allowlist and trainable inventory")
  check_allowlist [] approved_allowlist
  check_parameters approved_allowlist [] trainable_parameters
