-- ===== src/Substrate/Successors.antt =====
-- Merge candidates and admitted successors: their validators in
-- crates/lmml-substrate/src/lifecycle.rs.
pub mod Binding
pub mod Gate
pub mod Provenance
pub mod Coverage
use Prim.Native.String
use lmml.Base.{
  ℕ, String, Bool, true, false, not, ◌&&◌, ◌||◌, ◌==◌, eqb, Option, none, some, List, [], ◌∷◌,
  is_empty, all, Result, ok, err, ◌>>=◌, ◌>>◌, reject_if,
}
use lmml.Base.F64.{F64, is_finite, lt, le, zero_f64, one_f64}
use lmml.Base.F64.Arithmetic.{abs, max, sub, mul, epsilon, eight_f64}
use lmml.Base.Text.{is_blank, mem_text}
use lmml.Substrate.Types.{
  SuccessorCandidateManifest, SuccessorManifest, RegressionResult, MergeDelta,
}
use lmml.Substrate.Errors.{
  Checked, SubstrateError, invalid_lifecycle_manifest, non_finite_training_state, no_op_merge,
  equivalence_failure, regression_gate_failure,
}
use lmml.Substrate.Identifiers.{validate_schema_version, validate_identifier}
use lmml.Substrate.Platform.{Platform}
use lmml.Substrate.Canonical.{validate_substrate_manifest}
use lmml.Substrate.Checks.{is_absolute, validate_timestamp, validate_trainable_inventory}

-- `option.as_deref() == Some(text)`
abbrev pub is_text : Option String → String → Bool
is_text none text = false
is_text (some s) text = s == text

abbrev bool_eq : Bool → Bool → Bool
bool_eq true b = b
bool_eq false b = not b

-- The checks of the delta and of the equivalence metrics, the same in both validators but for the
-- name of the metric in an error.
unfoldable pub validate_metrics :
    MergeDelta
    → (equivalence_max_absolute_delta equivalence_tolerance : F64) → String
    → Checked (Unit {0})
validate_metrics delta equivalence_max_absolute_delta equivalence_tolerance metric = do
  reject_if
      (eqb delta.changed_tensor_count 0
        || le delta.max_absolute_delta zero_f64
        || le delta.aggregate_norm_delta zero_f64)
      no_op_merge
  reject_if
      (not (
        all is_finite (
          delta.max_absolute_delta ∷ delta.aggregate_norm_delta ∷ equivalence_max_absolute_delta
          ∷ equivalence_tolerance ∷ [])))
      (non_finite_training_state metric)
  reject_if
      (lt equivalence_max_absolute_delta zero_f64
        || lt equivalence_tolerance zero_f64
        || lt equivalence_tolerance equivalence_max_absolute_delta)
      (equivalence_failure equivalence_max_absolute_delta equivalence_tolerance)

-- One regression result against its recorded delta and its gate.
unfoldable pub check_regression : RegressionResult → Checked (Unit {0})
check_regression result = do
  reject_if
      (not (is_finite result.parent_metric)
        || not (is_finite result.candidate_metric)
        || not (is_finite result.delta)
        || not (is_finite result.maximum_degradation))
      (non_finite_training_state (String.◌++◌ "regression case " result.case_id))
  let expected_delta = sub result.candidate_metric result.parent_metric
  let delta_tolerance =
      mul (mul epsilon (max (max (abs expected_delta) (abs result.delta)) one_f64)) eight_f64
  reject_if
      (lt result.maximum_degradation zero_f64
        || lt delta_tolerance (abs (sub result.delta expected_delta)))
      (invalid_lifecycle_manifest
        (String.◌++◌ "regression delta is inconsistent for case " result.case_id))
  let expected_pass = le result.delta result.maximum_degradation
  reject_if (not (bool_eq result.passed expected_pass) || not expected_pass)
      (regression_gate_failure result.case_id)

-- The loop over the results; `seen` is `case_ids`.
unfoldable pub check_regressions : (seen : List String) → List RegressionResult → Checked (Unit {0})
check_regressions seen [] = ok tt
check_regressions seen (result ∷ results) =
    validate_identifier result.case_id
    >> (reject_if (mem_text result.case_id seen)
          (invalid_lifecycle_manifest "successor regression case IDs must be unique")
        >> (check_regression result >> check_regressions (result.case_id ∷ seen) results))

module _ (p : Platform) where
  unfoldable pub validate_successor_candidate_manifest :
      SuccessorCandidateManifest → Checked (Unit {0})
  validate_successor_candidate_manifest candidate = do
    validate_schema_version candidate.schema_version
    validate_identifier candidate.candidate_id
    validate_identifier candidate.parent_lineage_id
    validate_identifier candidate.training_run_id
    validate_identifier candidate.adapter_artifact_id
    validate_timestamp p candidate.created_at
    reject_if (not (is_absolute candidate.training_manifest_path))
        (invalid_lifecycle_manifest "candidate training manifest path must be absolute")
    validate_substrate_manifest p candidate.candidate_manifest
    reject_if (not (is_text candidate.candidate_manifest.model.parent candidate.parent_lineage_id))
        (invalid_lifecycle_manifest "candidate canonical manifest requires its explicit parent")
    validate_metrics candidate.delta candidate.equivalence_max_absolute_delta
        candidate.equivalence_tolerance "merge or equivalence metric"
    reject_if
        (candidate.requested_dtype == ""
          || candidate.effective_load_dtype == ""
          || candidate.merge_dtype == ""
          || candidate.output_dtype == ""
          || is_blank candidate.merge_tool
          || is_blank candidate.merge_tool_version)
        (invalid_lifecycle_manifest "candidate merge requires explicit dtype and tool provenance")

  unfoldable pub validate_successor_manifest : SuccessorManifest → Checked (Unit {0})
  validate_successor_manifest manifest = do
    validate_schema_version manifest.schema_version
    validate_identifier manifest.successor_lineage_id
    validate_identifier manifest.parent_lineage_id
    validate_identifier manifest.candidate_id
    validate_identifier manifest.training_run_id
    validate_identifier manifest.adapter_artifact_id
    validate_identifier manifest.parent_baseline_id
    validate_timestamp p manifest.admitted_at
    reject_if (manifest.successor_lineage_id == manifest.parent_lineage_id)
        (invalid_lifecycle_manifest "successor requires a distinct explicit parent")
    reject_if (is_empty manifest.regression)
        (invalid_lifecycle_manifest "successor admission requires regression evidence")
    validate_trainable_inventory manifest.approved_allowlist manifest.trainable_parameters
    reject_if
        (is_blank manifest.requested_dtype
          || is_blank manifest.effective_load_dtype
          || is_blank manifest.merge_dtype
          || is_blank manifest.output_dtype
          || is_blank manifest.merge_tool
          || is_blank manifest.merge_tool_version)
        (invalid_lifecycle_manifest "successor admission requires dtype and merge-tool provenance")
    validate_metrics manifest.merge_delta manifest.equivalence_max_absolute_delta
        manifest.equivalence_tolerance "successor merge or equivalence metric"
    check_regressions [] manifest.regression
