-- ===== src/Substrate/Successors/Binding.antt =====
-- The comparisons between records of crates/lmml-substrate/src/lifecycle/successor.rs.
use lmml.Base.{
  ℕ, String, Bool, true, false, not, ◌&&◌, ◌||◌, ◌==◌, eqb, ltb, Option, none, some, List, [], ◌∷◌,
  map, all, unwrap_or, ◌>>=◌, ◌>>◌, reject_if,
}
use lmml.Base.F64
use lmml.Base.Text.{mem_text}
use lmml.Substrate.Json.{map_eq}
use lmml.Substrate.Types.{
  Hash256, SubstrateManifest, TensorDescriptor, SuccessorCandidateManifest, SuccessorManifest,
  TrainingRunManifest, BaselineManifest, BaselineCase, RegressionResult, MergeDelta,
}
use lmml.Substrate.Errors.{Checked, invalid_lifecycle_manifest, base_lineage_mismatch}
use lmml.Substrate.Platform.{Platform}
use lmml.Substrate.Canonical.{texts_eq}
use lmml.Substrate.Checks.{parse_timestamp}
use lmml.Substrate.Training.{validate_training_run_manifest, validate_baseline_manifest}
use lmml.Substrate.Successors.{
  is_text, validate_successor_candidate_manifest, validate_successor_manifest,
}

abbrev pub option_text_eq : Option String → Option String → Bool
option_text_eq none none = true
option_text_eq (some a) (some b) = a == b
option_text_eq _ _ = false

abbrev pub shapes_eq : List ℕ → List ℕ → Bool
shapes_eq [] [] = true
shapes_eq (a ∷ xs) (b ∷ ys) = eqb a b && shapes_eq xs ys
shapes_eq _ _ = false

-- `parent_tensors.eq(candidate_tensors)`: names, dtypes and shapes.
unfoldable pub tensors_eq : List TensorDescriptor → List TensorDescriptor → Bool
tensors_eq [] [] = true
tensors_eq (a ∷ xs) (b ∷ ys) =
    (a.name == b.name) && (a.dtype == b.dtype) && shapes_eq a.shape b.shape && tensors_eq xs ys
tensors_eq _ _ = false

abbrev merge_delta_eq : MergeDelta → MergeDelta → Bool
merge_delta_eq a b =
    eqb a.changed_tensor_count b.changed_tensor_count
    && eqb a.unchanged_tensor_count b.unchanged_tensor_count
    && F64.eq a.max_absolute_delta b.max_absolute_delta
    && F64.eq a.aggregate_norm_delta b.aggregate_norm_delta

-- Equality of the sets of two lists.
unfoldable pub same_set : List String → List String → Bool
same_set xs ys = all (λ x. mem_text x ys) xs && all (λ y. mem_text y xs) ys

unfoldable pub validate_successor_structure :
    SubstrateManifest → SubstrateManifest → Checked (Unit {0})
validate_successor_structure parent candidate = do
  reject_if (not (is_text candidate.model.parent parent.model.lineage_id))
      (base_lineage_mismatch parent.model.lineage_id (unwrap_or candidate.model.parent ""))
  reject_if
      (not (option_text_eq candidate.architecture.model_type parent.architecture.model_type)
        || not (texts_eq candidate.architecture.architectures parent.architecture.architectures)
        || not (candidate.config_hash == parent.config_hash)
        || not (candidate.tokenizer_hash == parent.tokenizer_hash)
        || not (eqb candidate.tensor_count parent.tensor_count)
        || not (eqb candidate.parameter_count parent.parameter_count))
      (invalid_lifecycle_manifest "successor architecture differs from its parent")
  reject_if (not (tensors_eq parent.tensors candidate.tensors)) (
      invalid_lifecycle_manifest "successor tensor names, dtypes, or shapes differ from its parent")

module _ (p : Platform) where
  unfoldable pub validate_candidate_against_training :
      SuccessorCandidateManifest → TrainingRunManifest → Checked (Unit {0})
  validate_candidate_against_training candidate training = do
    validate_successor_candidate_manifest p candidate
    reject_if
        (not (candidate.parent_lineage_id == training.base_lineage_id)
          || not (candidate.training_run_id == training.training_run_id)
          || not (candidate.adapter_artifact_id == training.adapter.artifact_id))
        (invalid_lifecycle_manifest "candidate parent, training run, or adapter identity mismatch")
    candidate_time ← parse_timestamp p candidate.created_at
    training_time ← parse_timestamp p training.created_at
    reject_if (ltb candidate_time training_time)
        (invalid_lifecycle_manifest "successor candidate predates its training run")

  unfoldable pub validate_successor_admission :
      SuccessorManifest → SuccessorCandidateManifest → Checked (Unit {0})
  validate_successor_admission successor candidate = do
    validate_successor_manifest p successor
    reject_if
        (not (successor.parent_lineage_id == candidate.parent_lineage_id)
          || not (successor.successor_lineage_id == candidate.candidate_manifest.model.lineage_id)
          || not (successor.candidate_id == candidate.candidate_id)
          || not (successor.training_run_id == candidate.training_run_id)
          || not (
              successor.successor_hash
              == candidate.candidate_manifest.model.canonical_manifest_hash))
        (invalid_lifecycle_manifest "successor admission does not match its candidate")
    admitted ← parse_timestamp p successor.admitted_at
    created ← parse_timestamp p candidate.created_at
    reject_if (ltb admitted created)
        (invalid_lifecycle_manifest "successor admission predates its merge candidate")

  unfoldable pub validate_successor_provenance :
      SuccessorManifest
      → SuccessorCandidateManifest
      → Hash256
      → TrainingRunManifest
      → Hash256
      → Checked (Unit {0})
  validate_successor_provenance successor candidate candidate_manifest_hash training
        training_manifest_hash =
      do
        validate_successor_manifest p successor
        validate_successor_candidate_manifest p candidate
        validate_training_run_manifest p training
        reject_if
            (not (successor.training_manifest_hash == training_manifest_hash)
              || not (candidate.training_manifest_hash == training_manifest_hash)
              || not (successor.candidate_manifest_hash == candidate_manifest_hash)
              || not (successor.training_run_id == training.training_run_id)
              || not (successor.training_run_id == candidate.training_run_id)
              || not (successor.adapter_artifact_id == training.adapter.artifact_id)
              || not (successor.adapter_artifact_id == candidate.adapter_artifact_id)
              || not (successor.dataset_hash == training.dataset_hash)
              || not (eqb successor.seed training.seed)
              || not (map_eq successor.training_config training.training_config)
              || not (texts_eq successor.approved_allowlist training.approved_allowlist)
              || not (texts_eq successor.trainable_parameters training.trainable_parameters)
              || not (successor.requested_dtype == candidate.requested_dtype)
              || not (successor.effective_load_dtype == candidate.effective_load_dtype)
              || not (successor.merge_dtype == candidate.merge_dtype)
              || not (successor.output_dtype == candidate.output_dtype)
              || not (successor.merge_tool == candidate.merge_tool)
              || not (successor.merge_tool_version == candidate.merge_tool_version)
              || not (
                  successor.tensor_manifest_hash
                  == candidate.candidate_manifest.model.canonical_manifest_hash)
              || not (merge_delta_eq successor.merge_delta candidate.delta)
              || not (
                  F64.eq successor.equivalence_max_absolute_delta
                    candidate.equivalence_max_absolute_delta)
              || not (F64.eq successor.equivalence_tolerance candidate.equivalence_tolerance))
            (invalid_lifecycle_manifest
              "successor admission provenance does not match immutable training and merge records")

  unfoldable pub validate_successor_baseline :
      SuccessorManifest → BaselineManifest → Hash256 → Checked (Unit {0})
  validate_successor_baseline successor baseline baseline_hash = do
    validate_successor_manifest p successor
    validate_baseline_manifest p baseline
    reject_if
        (not (successor.parent_lineage_id == baseline.model_lineage_id)
          || not (successor.parent_baseline_id == baseline.baseline_id)
          || not (successor.parent_baseline_hash == baseline_hash))
        (invalid_lifecycle_manifest
          "successor regression is not bound to the exact frozen parent baseline")
    reject_if
        (not (
          same_set (map (λ (c : BaselineCase). c.case_id) baseline.cases)
            (map (λ (r : RegressionResult). r.case_id) successor.regression)))
        (invalid_lifecycle_manifest
          "regression cases must exactly match the frozen parent baseline")
