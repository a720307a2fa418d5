-- ===== src/Substrate/Checks/Enums.antt =====
-- The tests of representations, quantizations and capabilities are those of equality.
use lmml.Base.{ℕ, ◌≡◌, refl, sym, ◌∙◌, ap, true, Option, none, some, eqb, eqb_iff, if◌then◌else◌}
use lmml.Substrate.Types.{
  ModelRepresentation, safetensors, gguf, QuantizationKind, f16, bf16, q8_0, q6_k, q4_k_m,
  RuntimeCapability, text_generation, logits, embeddings, hidden_state_observation,
  eleven_tap_observation,
}
use lmml.Substrate.Checks.{
  representation_eq, quantization_code, quantization_eq, capability_code, capability_eq,
}

pub representation_eq-same : (a b : ModelRepresentation) → representation_eq a b ≡ true → a ≡ b
representation_eq-same safetensors safetensors h = refl
representation_eq-same gguf gguf h = refl
representation_eq-same safetensors gguf h = cc
representation_eq-same gguf safetensors h = cc

abbrev quantization_of : ℕ → QuantizationKind
quantization_of n =
    if eqb n 0
    then f16
    else if eqb n 1
    then bf16
    else if eqb n 2
    then q8_0
    else if eqb n 3
    then q6_k
    else q4_k_m

quantization_of-quantization_code :
    (kind : QuantizationKind) → quantization_of (quantization_code kind) ≡ kind
quantization_of-quantization_code f16 = refl
quantization_of-quantization_code bf16 = refl
quantization_of-quantization_code q8_0 = refl
quantization_of-quantization_code q6_k = refl
quantization_of-quantization_code q4_k_m = refl

pub representation_eq_refl : (a : ModelRepresentation) → representation_eq a a ≡ true
representation_eq_refl safetensors = refl
representation_eq_refl gguf = refl

pub quantization_eq_refl : (a : Option QuantizationKind) → quantization_eq a a ≡ true
quantization_eq_refl none = refl
quantization_eq_refl (some a) = (eqb_iff (quantization_code a) (quantization_code a)).1 refl

pub quantization_eq-same : (a b : Option QuantizationKind) → quantization_eq a b ≡ true → a ≡ b
quantization_eq-same none none h = refl
quantization_eq-same (some a) (some b) h =
    let codes = (eqb_iff (quantization_code a) (quantization_code b)).0 h in
    ap some (
      sym (quantization_of-quantization_code a)
      ∙ (ap quantization_of codes ∙ quantization_of-quantization_code b))
quantization_eq-same none (some b) h = cc
quantization_eq-same (some a) none h = cc

abbrev capability_of : ℕ → RuntimeCapability
capability_of n =
    if eqb n 0
    then text_generation
    else if eqb n 1
    then logits
    else if eqb n 2
    then embeddings
    else if eqb n 3
    then hidden_state_observation
    else eleven_tap_observation

capability_of-capability_code :
    (capability : RuntimeCapability) → capability_of (capability_code capability) ≡ capability
capability_of-capability_code text_generation = refl
capability_of-capability_code logits = refl
capability_of-capability_code embeddings = refl
capability_of-capability_code hidden_state_observation = refl
capability_of-capability_code eleven_tap_observation = refl

pub capability_eq-same : (a b : RuntimeCapability) → capability_eq a b ≡ true → a ≡ b
capability_eq-same a b h =
    let codes = (eqb_iff (capability_code a) (capability_code b)).0 h in
    sym (capability_of-capability_code a)
    ∙ (ap capability_of codes ∙ capability_of-capability_code b)

pub capability_eq_refl : (a : RuntimeCapability) → capability_eq a a ≡ true
capability_eq_refl a = (eqb_iff (capability_code a) (capability_code a)).1 refl
