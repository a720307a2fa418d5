-- ===== src/Substrate/Tests/Records.antt =====
-- The theorems about the records of crates/lmml-substrate, at the lineage of the parent.
use lmml.Base.{◌^◌, ◌<◌, String, ◌≡◌, refl, ◌≢◌, true, [], ◌∷◌, length, In, Pairwise, ok}
use lmml.Base.F64.{is_finite, lt, le, zero_f64, one_f64}
use lmml.Base.F64.Arithmetic.{abs, max, sub, mul}
use lmml.Base.Text.{is_blank, is_ascii_alphanumeric, text_lt, contains, strip_suffix, utf8}
use lmml.Substrate.Json.{map_eq}
use lmml.Substrate.Types.{
  TensorDescriptor, ShardManifest, BaselineCase, BaselineManifest, RegressionResult,
}
use lmml.Substrate.Identifiers.{validate_identifier, validate_schema_version}
use lmml.Substrate.Canonical.{
  parameter_count_from, is_strictly_sorted_unique, is_tokenizer_file, validate_shard,
  validate_parent, validate_inventory, tokenizer_hash_from_records, manifest_hash,
  validate_substrate_manifest, seal_manifest,
}
use lmml.Substrate.Canonical.Inventory.{product, parameters, validate_inventory-counts}
use lmml.Substrate.Canonical.Seal.{seal_manifest-IsSealed}
use lmml.Substrate.Checks.{
  is_absolute, parse_timestamp, validate_timestamp, matches_allowlist, is_lora_parameter_name,
  validate_trainable_inventory,
}
use lmml.Substrate.Checks.Inventory.{validate_trainable_inventory-IsTrainable}
use lmml.Substrate.Training.{
  check_cases, validate_baseline_manifest, validate_training_run_manifest,
  validate_training_authorization_manifest, training_authorization_hash,
  validate_training_run_against_authorization,
}
use lmml.Substrate.Successors.{
  validate_metrics, check_regression, check_regressions, validate_successor_candidate_manifest,
  validate_successor_manifest,
}
use lmml.Substrate.Successors.Binding.{
  validate_candidate_against_training, validate_successor_admission, validate_successor_baseline,
  same_set,
}
use lmml.Substrate.Successors.Gate.{validate_successor_manifest-IsAdmissible}
use lmml.Substrate.Successors.Provenance.{Follows, provenance_chain}
use lmml.Substrate.Successors.Coverage.{validate_successor_baseline-covers}
use lmml.Substrate.Tests.{
  platform, hash, draft, canonical, allowlist, trainable, authorization, run, candidate, successor,
}

sealed : seal_manifest platform draft ≡ ok canonical
unfolding seal_manifest manifest_hash validate_substrate_manifest validate_inventory validate_shard
    tokenizer_hash_from_records is_tokenizer_file parameter_count_from is_strictly_sorted_unique
    text_lt validate_identifier validate_schema_version validate_parent utf8
sealed = refl

pub sealed_again : validate_substrate_manifest platform canonical ≡ ok tt
sealed_again = (seal_manifest-IsSealed platform draft canonical sealed).0

seal_manifest-IsSealed_example :
    (validate_substrate_manifest platform canonical ≡ ok tt)
    × (manifest_hash platform canonical ≡ ok hash)
    × (canonical ≡ canonical)
    × (seal_manifest platform canonical ≡ ok canonical)
seal_manifest-IsSealed_example = seal_manifest-IsSealed platform draft canonical sealed

inventory_valid : validate_inventory canonical ≡ ok tt
unfolding validate_inventory validate_shard parameter_count_from is_strictly_sorted_unique text_lt
inventory_valid = refl

validate_inventory-counts_example :
    (1 ≡ length canonical.tensors)
    × (6 ≡ parameters canonical.tensors)
    × (6 < 2 ^ 64)
    × ((t : TensorDescriptor)
        → In t canonical.tensors
        → (t.parameter_count ≡ product t.shape)
          × ((s : ShardManifest) × In s canonical.shards × (s.path ≡ t.shard)))
validate_inventory-counts_example = validate_inventory-counts canonical inventory_valid

trainable_valid : validate_trainable_inventory allowlist trainable ≡ ok tt
unfolding validate_trainable_inventory strip_suffix contains
trainable_valid = refl

validate_trainable_inventory-IsTrainable_example :
    Pairwise (λ a b. a ≢ b) trainable
    × ((parameter : String)
        → In parameter trainable
        → (is_lora_parameter_name parameter ≡ true)
          × ((allowed : String) × In allowed allowlist
              × (matches_allowlist parameter allowed ≡ true)))
validate_trainable_inventory-IsTrainable_example =
    validate_trainable_inventory-IsTrainable allowlist trainable trainable_valid

pub successor_valid : validate_successor_manifest platform successor ≡ ok tt
unfolding validate_successor_manifest check_regressions check_regression validate_metrics lt le
    is_finite abs max sub mul validate_trainable_inventory strip_suffix contains validate_identifier
    is_ascii_alphanumeric validate_schema_version validate_timestamp is_blank
successor_valid = refl

validate_successor_manifest-IsAdmissible_example :
    (successor.successor_lineage_id ≢ successor.parent_lineage_id)
    × (successor.merge_delta.changed_tensor_count ≢ 0)
    × (le zero_f64 one_f64 ≡ true)
    × (successor.regression ≢ [])
    × Pairwise (λ (a b : RegressionResult). a.case_id ≢ b.case_id) successor.regression
    × ((r : RegressionResult)
        → In r successor.regression
        → (r.passed ≡ true) × (le r.delta r.maximum_degradation ≡ true))
validate_successor_manifest-IsAdmissible_example =
    validate_successor_manifest-IsAdmissible platform successor successor_valid

run_valid : validate_training_run_against_authorization platform run authorization ≡ ok tt
unfolding validate_training_run_against_authorization validate_training_run_manifest
    training_authorization_hash validate_training_authorization_manifest
    validate_trainable_inventory strip_suffix contains validate_identifier is_ascii_alphanumeric
    validate_schema_version validate_timestamp parse_timestamp is_finite map_eq utf8
run_valid = refl

candidate_valid : validate_candidate_against_training platform candidate run ≡ ok tt
unfolding validate_candidate_against_training validate_successor_candidate_manifest validate_metrics
    lt le is_finite validate_identifier is_ascii_alphanumeric validate_schema_version
    validate_timestamp parse_timestamp is_blank is_absolute manifest_hash
    validate_substrate_manifest validate_inventory validate_shard tokenizer_hash_from_records
    is_tokenizer_file parameter_count_from is_strictly_sorted_unique text_lt validate_parent utf8
candidate_valid = refl

admission_valid : validate_successor_admission platform successor candidate ≡ ok tt
unfolding validate_successor_admission validate_successor_manifest check_regressions
    check_regression validate_metrics lt le is_finite abs max sub mul validate_trainable_inventory
    strip_suffix contains validate_identifier is_ascii_alphanumeric validate_schema_version
    validate_timestamp parse_timestamp is_blank
admission_valid = refl

provenance_chain_example :
    (successor.parent_lineage_id ≡ authorization.base_lineage_id)
    × (successor.training_run_id ≡ run.training_run_id)
    × (run.authorization_id ≡ authorization.authorization_id)
    × Follows platform "2026-01-01T00:00:00Z" "2026-01-01T00:00:00Z"
    × Follows platform "2026-01-01T00:00:00Z" "2026-01-02T00:00:00Z"
    × Follows platform "2026-01-02T00:00:00Z" "2026-01-02T00:00:00Z"
provenance_chain_example =
    provenance_chain platform authorization run candidate successor run_valid candidate_valid
      admission_valid

abbrev baseline : BaselineManifest
baseline = record {
  schema_version = 2;
  baseline_id = "baseline";
  model_lineage_id = "base";
  artifact_id = "weights";
  artifact_hash = hash;
  backend = "llama.cpp";
  backend_version = "1";
  parameters = [];
  cases = record { case_id = "case"; prompt = "hi"; output_hash = hash; output = "ho" } ∷ [];
  created_at = "2026-01-01T00:00:00Z";
}

baseline_valid : validate_successor_baseline platform successor baseline hash ≡ ok tt
unfolding validate_successor_baseline validate_baseline_manifest check_cases same_set
    validate_identifier is_ascii_alphanumeric validate_schema_version validate_timestamp is_blank
    utf8
baseline_valid = rw successor_valid refl

validate_successor_baseline-covers_example :
    (successor.parent_lineage_id ≡ baseline.model_lineage_id)
    × ((c : BaselineCase)
        → In c baseline.cases
        → (r : RegressionResult) × In r successor.regression
          × (c.case_id ≡ r.case_id)
          × (r.passed ≡ true)
          × (le r.delta r.maximum_degradation ≡ true))
    × ((r : RegressionResult)
        → In r successor.regression
        → (c : BaselineCase) × In c baseline.cases × (r.case_id ≡ c.case_id))
validate_successor_baseline-covers_example =
    validate_successor_baseline-covers platform successor baseline hash baseline_valid
