-- ===== src/Substrate/Training.antt =====
-- Baselines, training authorizations and training runs: their validators, the authorization hash,
-- and the comparisons of crates/lmml-substrate/src/lifecycle.rs between these records. The adapter
-- file that `validate_training_run_against_base` also reads is not modelled, nor is that function.
use lmml.Base.{
  String, not, ◌||◌, ◌==◌, eqb, ltb, List, [], ◌∷◌, is_empty, is_some, any, ok, ◌>>=◌, ◌>>◌,
  reject_if, ok_or,
}
use Prim.Native.String
use lmml.Base.F64.{is_finite}
use lmml.Base.Text.{is_blank, utf8, mem_text}
use lmml.Substrate.Json.{map_eq}
use lmml.Substrate.Types.{
  Hash256, BaselineManifest, BaselineCase, TrainingRunManifest, TrainingAuthorizationManifest,
  SubstrateManifest, safetensors,
}
use lmml.Substrate.Errors.{
  Checked, invalid_lifecycle_manifest, non_finite_training_state, serialize, base_lineage_mismatch,
  manifest_mismatch,
}
use lmml.Substrate.Identifiers.{validate_schema_version, validate_identifier}
use lmml.Substrate.Platform.{Platform}
use lmml.Substrate.Canonical.{texts_eq}
use lmml.Substrate.Checks.{
  representation_eq, validate_timestamp, parse_timestamp, validate_trainable_inventory,
}

module _ (p : Platform) where
  -- The loop over the cases; `seen` is `case_ids`.
  unfoldable pub check_cases : (seen : List String) → List BaselineCase → Checked (Unit {0})
  check_cases seen [] = ok tt
  check_cases seen (case ∷ cases) =
      validate_identifier case.case_id
      >> (reject_if (case.prompt == "" || mem_text case.case_id seen)
            (invalid_lifecycle_manifest "baseline case IDs must be unique and prompts non-empty")
          >> (reject_if (not (p.sha256 (utf8 case.output) == case.output_hash)) (
                invalid_lifecycle_manifest
                  (String.◌++◌ "baseline output hash mismatch for " case.case_id))
              >> check_cases (case.case_id ∷ seen) cases))

  unfoldable pub validate_baseline_manifest : BaselineManifest → Checked (Unit {0})
  validate_baseline_manifest manifest = do
    validate_schema_version manifest.schema_version
    validate_identifier manifest.baseline_id
    validate_identifier manifest.model_lineage_id
    validate_identifier manifest.artifact_id
    validate_timestamp p manifest.created_at
    reject_if
        (is_blank manifest.backend || is_blank manifest.backend_version || is_empty manifest.cases)
        (invalid_lifecycle_manifest "baseline requires a backend, version, and cases")
    check_cases [] manifest.cases

  unfoldable pub validate_training_run_manifest : TrainingRunManifest → Checked (Unit {0})
  validate_training_run_manifest run = do
    validate_schema_version run.schema_version
    validate_identifier run.training_run_id
    validate_identifier run.authorization_id
    validate_identifier run.base_lineage_id
    validate_identifier run.adapter.artifact_id
    validate_timestamp p run.created_at
    reject_if
        (not (representation_eq run.adapter.representation safetensors)
          || is_some run.adapter.quantization
          || not (run.adapter.model_lineage_id == run.base_lineage_id))
        (invalid_lifecycle_manifest "training adapter identity is inconsistent with its base")
    reject_if (is_empty run.adapter_tensors)
        (invalid_lifecycle_manifest "training run requires an adapter tensor inventory")
    validate_trainable_inventory run.approved_allowlist run.trainable_parameters
    reject_if (not (is_finite run.final_loss)) (non_finite_training_state "loss")
    reject_if (is_empty run.gradient_norms)
        (invalid_lifecycle_manifest "training run requires gradient-norm evidence")
    reject_if (any (λ norm. not (is_finite norm)) run.gradient_norms)
        (non_finite_training_state "gradient norm")

  unfoldable pub validate_training_authorization_manifest :
      TrainingAuthorizationManifest → Checked (Unit {0})
  validate_training_authorization_manifest authorization = do
    validate_schema_version authorization.schema_version
    validate_identifier authorization.authorization_id
    validate_identifier authorization.base_lineage_id
    validate_timestamp p authorization.created_at
    validate_trainable_inventory authorization.approved_allowlist authorization.trainable_parameters

  unfoldable pub training_authorization_hash : TrainingAuthorizationManifest → Checked Hash256
  training_authorization_hash manifest = do
    validate_training_authorization_manifest manifest
    payload ← ok_or (p.authorization_json.to_vec manifest) serialize
    ok (p.sha256 payload)

  unfoldable pub validate_training_authorization_against_base :
      TrainingAuthorizationManifest → SubstrateManifest → Checked (Unit {0})
  validate_training_authorization_against_base authorization base = do
    validate_training_authorization_manifest authorization
    reject_if (not (authorization.base_lineage_id == base.model.lineage_id))
        (base_lineage_mismatch base.model.lineage_id authorization.base_lineage_id)
    reject_if
        (not (authorization.base_manifest_hash == base.model.canonical_manifest_hash)
          || not (authorization.config_hash == base.config_hash)
          || not (authorization.tokenizer_hash == base.tokenizer_hash))
        manifest_mismatch

  unfoldable pub validate_training_run_against_authorization :
      TrainingRunManifest → TrainingAuthorizationManifest → Checked (Unit {0})
  validate_training_run_against_authorization run authorization = do
    validate_training_run_manifest run
    validate_training_authorization_manifest authorization
    expected_hash ← training_authorization_hash authorization
    reject_if
        (not (run.authorization_id == authorization.authorization_id)
          || not (run.authorization_hash == expected_hash)
          || not (run.base_lineage_id == authorization.base_lineage_id)
          || not (run.base_manifest_hash == authorization.base_manifest_hash)
          || not (run.config_hash == authorization.config_hash)
          || not (run.tokenizer_hash == authorization.tokenizer_hash)
          || not (run.dataset_hash == authorization.dataset_hash)
          || not (eqb run.seed authorization.seed)
          || not (map_eq run.training_config authorization.training_config)
          || not (texts_eq run.approved_allowlist authorization.approved_allowlist)
          || not (texts_eq run.trainable_parameters authorization.trainable_parameters))
        (invalid_lifecycle_manifest
          "training run does not match its pre-optimization authorization")
    authorization_time ← parse_timestamp p authorization.created_at
    run_time ← parse_timestamp p run.created_at
    reject_if (ltb run_time authorization_time)
        (invalid_lifecycle_manifest "training run predates its pre-optimization authorization")
