-- ===== src/Substrate/Errors.antt =====
-- `SubstrateError` of crates/lmml-substrate/src/types.rs, without the variants that only the import
-- of checkpoints raises. The text of an error of another crate (`serde_json::Error`) is left out, and
-- an `io::Error` is its kind.
use lmml.Base.{ℕ, String, Result}
use lmml.Base.F64.{F64}
use lmml.Substrate.Types.{FilePath}

pub data IoKind : Type 0 where
  not_found already_exists permission_denied other : IoKind

pub data SubstrateError : Type 0 where
  invalid_approval_contract : String → SubstrateError
  -- Not a variant of the code: a call that panics, which no caller catches.
  panicked : SubstrateError
  unsigned_approval : SubstrateError
  approval_signature_invalid : SubstrateError
  approval_rollback : String → SubstrateError
  request_policy_violation : String → SubstrateError
  approval_conflict : FilePath → SubstrateError
  revocation_conflict : FilePath → SubstrateError
  invalid_hash : String → SubstrateError
  unsupported_schema_version : (expected actual : ℕ) → SubstrateError
  invalid_identifier : String → SubstrateError
  io : FilePath → IoKind → SubstrateError
  invalid_json : FilePath → SubstrateError
  header_too_large : FilePath → SubstrateError
  invalid_tensor_layout : FilePath → SubstrateError
  parameter_overflow : String → SubstrateError
  unsupported_safetensors_dtype : (tensor dtype : String) → SubstrateError
  manifest_mismatch : SubstrateError
  invalid_substrate_manifest : String → SubstrateError
  manifest_conflict : FilePath → SubstrateError
  serialize : SubstrateError
  manifest_json : SubstrateError
  missing_schema_version : SubstrateError
  artifact_conflict : FilePath → SubstrateError
  candidate_conflict : FilePath → SubstrateError
  invalid_artifact_manifest : String → SubstrateError
  runtime_capability_unsupported : String → SubstrateError
  base_lineage_mismatch : (expected actual : String) → SubstrateError
  unexpected_trainable_parameter : String → SubstrateError
  non_finite_training_state : String → SubstrateError
  no_op_merge : SubstrateError
  equivalence_failure : (delta tolerance : F64) → SubstrateError
  regression_gate_failure : String → SubstrateError
  invalid_lifecycle_manifest : String → SubstrateError
  lifecycle_conflict : FilePath → SubstrateError

-- `Result<A, SubstrateError>`
abbrev pub Checked {ℓ} : Type ℓ → Type ℓ
Checked A = Result SubstrateError A
