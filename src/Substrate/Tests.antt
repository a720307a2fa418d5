-- ===== src/Substrate/Tests.antt =====
-- A small lineage on which the theorems about crates/lmml-substrate are tried: one model with one
-- tensor, its training and merge records, one runtime, and a machine. The JSON text of a record is
-- stood in for by the bytes of its identifier.
mod Storage
mod Records
mod Selection
use lmml.Base.{
  ℕ, ◌-◌, ◌*◌, ◌/◌, String, true, not, Option, none, some, List, [], ◌∷◌, ◌==◌, if◌then◌else◌,
}
use lmml.Base.F64.{F64, zero_f64, one_f64}
use lmml.Base.Text.{utf8}
use lmml.Substrate.Types.{
  Hash256, safetensors, SubstrateManifest, ArtifactManifest, GgufCandidateManifest, ModelLease,
  RuntimeManifest, BaselineManifest, TrainingAuthorizationManifest, TrainingRunManifest, MergeDelta,
  SuccessorCandidateManifest, RegressionResult, SuccessorManifest,
}
use lmml.Substrate.Errors.{IoKind, permission_denied}
use lmml.Substrate.Disk.{Bytes, Disk, Os, World}
use lmml.Substrate.Platform.{Json, Platform}
use lmml.Substrate.Canonical.{zero_hash}

abbrev pub digest : Bytes → Hash256
digest bytes = "aaaaaaaaaaaaaaaaaaaaaaaaaaaaaaaaaaaaaaaaaaaaaaaaaaaaaaaaaaaaaaaa"

abbrev read_time : String → Option ℕ
read_time text =
    if text == "2026-01-01T00:00:00Z"
    then some 1
    else if text == "2026-01-02T00:00:00Z"
    then some 2
    else none

abbrev json_by : {A : Type 0} → (A → String) → Json A
json_by key = record { to_vec = λ a. some (utf8 (key a)); to_vec_pretty = λ a. some (utf8 (key a)) }

abbrev pub platform : Platform
platform = record {
  sha256 = digest;
  rfc3339 = read_time;
  substrate_json = json_by λ (m : SubstrateManifest). m.model.lineage_id;
  artifact_json = json_by λ (m : ArtifactManifest). m.artifact.artifact_id;
  gguf_candidate_json = json_by λ (m : GgufCandidateManifest). m.artifact.artifact_id;
  baseline_json = json_by λ (m : BaselineManifest). m.baseline_id;
  authorization_json = json_by λ (m : TrainingAuthorizationManifest). m.authorization_id;
  training_json = json_by λ (m : TrainingRunManifest). m.training_run_id;
  candidate_json = json_by λ (m : SuccessorCandidateManifest). m.candidate_id;
  successor_json = json_by λ (m : SuccessorManifest). m.candidate_id;
  runtime_json = json_by λ (m : RuntimeManifest). m.runtime_id;
  lease_json = json_by λ (m : ModelLease). m.lease_id;
}

abbrev pub no_bytes : Bytes
no_bytes = []

abbrev pub hash : Hash256
hash = "aaaaaaaaaaaaaaaaaaaaaaaaaaaaaaaaaaaaaaaaaaaaaaaaaaaaaaaaaaaaaaaa"

-- A canonical manifest of one tensor of 2 × 3 parameters, not sealed yet.
abbrev pub draft : SubstrateManifest
draft = record {
  schema_version = 2;
  model = record {
    lineage_id = "child";
    model_name = "model";
    parent = some "base";
    canonical_manifest_hash = zero_hash;
  };
  architecture = record { model_type = none; architectures = []; fields = [] };
  config_hash = hash;
  tokenizer_hash = hash;
  index_hash = none;
  auxiliary_files = record { path = "tokenizer.json"; size_bytes = 2; sha256 = hash } ∷ [];
  tensor_count = 1;
  parameter_count = 6;
  shards =
      record { path = "a.safetensors"; size_bytes = 9; sha256 = hash; tensor_names = "w" ∷ [] }
      ∷ [];
  tensors =
      record {
        name = "w";
        shard = "a.safetensors";
        dtype = "F32";
        shape = 2 ∷ 3 ∷ [];
        parameter_count = 6;
      }
      ∷ [];
}

abbrev pub canonical : SubstrateManifest
canonical = record draft { model = record (draft.model) { canonical_manifest_hash = hash } }

abbrev pub allowlist : List String
allowlist = "layers.*" ∷ []

abbrev pub trainable : List String
trainable = "layers.0.lora_A" ∷ "layers.0.lora_B" ∷ []

abbrev pub authorization : TrainingAuthorizationManifest
authorization = record {
  schema_version = 2;
  authorization_id = "auth";
  base_lineage_id = "base";
  base_manifest_hash = hash;
  config_hash = hash;
  tokenizer_hash = hash;
  dataset_hash = hash;
  seed = 7;
  training_config = [];
  approved_allowlist = allowlist;
  trainable_parameters = trainable;
  created_at = "2026-01-01T00:00:00Z";
}

abbrev pub run : TrainingRunManifest
run = record {
  schema_version = 2;
  training_run_id = "run";
  authorization_id = "auth";
  authorization_hash = hash;
  base_lineage_id = "base";
  base_manifest_hash = hash;
  config_hash = hash;
  tokenizer_hash = hash;
  dataset_hash = hash;
  seed = 7;
  training_config = [];
  approved_allowlist = allowlist;
  trainable_parameters = trainable;
  final_loss = one_f64;
  gradient_norms = one_f64 ∷ [];
  adapter = record {
    artifact_id = "adapter";
    model_lineage_id = "base";
    representation = safetensors;
    quantization = none;
    artifact_hash = hash;
  };
  adapter_path = "/adapter";
  adapter_tensors = draft.tensors;
  created_at = "2026-01-01T00:00:00Z";
}

abbrev pub merge : MergeDelta
merge = record {
  changed_tensor_count = 1;
  unchanged_tensor_count = 0;
  max_absolute_delta = one_f64;
  aggregate_norm_delta = one_f64;
}

abbrev pub candidate : SuccessorCandidateManifest
candidate = record {
  schema_version = 2;
  candidate_id = "candidate";
  parent_lineage_id = "base";
  training_run_id = "run";
  training_manifest_path = "/run.json";
  training_manifest_hash = hash;
  adapter_artifact_id = "adapter";
  candidate_path = "/candidate";
  merge_tool = "peft";
  merge_tool_version = "1";
  requested_dtype = "F32";
  effective_load_dtype = "F32";
  merge_dtype = "F32";
  output_dtype = "F32";
  candidate_manifest = canonical;
  delta = merge;
  equivalence_max_absolute_delta = zero_f64;
  equivalence_tolerance = one_f64;
  created_at = "2026-01-02T00:00:00Z";
}

abbrev pub result : RegressionResult
result = record {
  case_id = "case";
  parent_metric = one_f64;
  candidate_metric = one_f64;
  delta = zero_f64;
  maximum_degradation = zero_f64;
  passed = true;
}

abbrev pub successor : SuccessorManifest
successor = record {
  schema_version = 2;
  successor_lineage_id = "child";
  parent_lineage_id = "base";
  candidate_id = "candidate";
  training_run_id = "run";
  training_manifest_hash = hash;
  candidate_manifest_hash = hash;
  adapter_artifact_id = "adapter";
  dataset_hash = hash;
  seed = 7;
  training_config = [];
  approved_allowlist = allowlist;
  trainable_parameters = trainable;
  requested_dtype = "F32";
  effective_load_dtype = "F32";
  merge_dtype = "F32";
  output_dtype = "F32";
  merge_tool = "peft";
  merge_tool_version = "1";
  tensor_manifest_hash = hash;
  merge_delta = merge;
  equivalence_max_absolute_delta = zero_f64;
  equivalence_tolerance = one_f64;
  parent_baseline_id = "baseline";
  parent_baseline_hash = hash;
  successor_hash = hash;
  regression = result ∷ [];
  admitted_at = "2026-01-02T00:00:00Z";
}
