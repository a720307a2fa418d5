-- ===== src/Substrate/Types.antt =====
-- crates/lmml-substrate/src/types.rs: the records. A `u32`, `u64` or `usize` field is a number, a
-- `BTreeMap` is its list of entries in the order of the keys, and a path is its text.
use lmml.Base.{ℕ, String, Bool, Option, List}
use lmml.Base.F64.{F64}
use lmml.Substrate.Json.{Value}

abbrev pub schema_version_2 : ℕ
schema_version_2 = 2

abbrev pub FilePath : Type 0
FilePath = String

-- A digest is its lowercase hexadecimal text; `parse_hash256` stands in `Identifiers`.
abbrev pub Hash256 : Type 0
Hash256 = String

pub record ModelIdentity : Type 0 where
  pub lineage_id : String
  pub model_name : String
  pub parent : Option String
  pub canonical_manifest_hash : Hash256

pub data ModelRepresentation : Type 0 where
  safetensors gguf : ModelRepresentation

pub data QuantizationKind : Type 0 where
  f16 bf16 q8_0 q6_k q4_k_m : QuantizationKind

pub record ArtifactIdentity : Type 0 where
  pub artifact_id : String
  pub model_lineage_id : String
  pub representation : ModelRepresentation
  pub quantization : Option QuantizationKind
  pub artifact_hash : Hash256

pub record ArchitectureFingerprint : Type 0 where
  pub model_type : Option String
  pub architectures : List String
  pub fields : List (String × Value)

pub record TensorDescriptor : Type 0 where
  pub name : String
  pub shard : String
  pub dtype : String
  pub shape : List ℕ
  pub parameter_count : ℕ

pub record ShardManifest : Type 0 where
  pub path : String
  pub size_bytes : ℕ
  pub sha256 : Hash256
  pub tensor_names : List String

pub record AuxiliaryFileManifest : Type 0 where
  pub path : String
  pub size_bytes : ℕ
  pub sha256 : Hash256

pub record SubstrateManifest : Type 0 where
  pub schema_version : ℕ
  pub model : ModelIdentity
  pub architecture : ArchitectureFingerprint
  pub config_hash : Hash256
  pub tokenizer_hash : Hash256
  pub index_hash : Option Hash256
  pub auxiliary_files : List AuxiliaryFileManifest
  pub tensor_count : ℕ
  pub parameter_count : ℕ
  pub shards : List ShardManifest
  pub tensors : List TensorDescriptor

pub record ArtifactAdmission : Type 0 where
  pub backend : String
  pub backend_version : String
  pub checked_at : String

pub record ArtifactManifest : Type 0 where
  pub schema_version : ℕ
  pub artifact : ArtifactIdentity
  pub parent_artifact : Option String
  pub canonical_model : String
  pub tool : String
  pub tool_version : String
  pub command_or_parameters : List String
  pub source_hashes : List Hash256
  pub output_hash : Hash256
  pub artifact_path : FilePath
  pub admission : Option ArtifactAdmission
  pub created_at : String

pub record GgufCandidateManifest : Type 0 where
  pub schema_version : ℕ
  pub artifact : ArtifactIdentity
  pub parent_artifact : String
  pub canonical_model : String
  pub tool : String
  pub tool_version : String
  pub command_or_parameters : List String
  pub source_hashes : List Hash256
  pub output_hash : Hash256
  pub artifact_path : FilePath
  pub created_at : String

pub data RuntimeCapability : Type 0 where
  text_generation logits embeddings hidden_state_observation eleven_tap_observation :
      RuntimeCapability

pub record ModelRequest : Type 0 where
  pub model_lineage_id : String
  pub purpose : String
  pub representation_preference : List ModelRepresentation
  pub required_capabilities : List RuntimeCapability

pub record ModelLease : Type 0 where
  pub lease_id : String
  pub model_lineage_id : String
  pub artifact_id : String
  pub runtime_id : String
  pub runtime_manifest_hash : Hash256
  pub endpoint : String
  pub manifest_hash : Hash256
  pub artifact_hash : Hash256
  pub capabilities : List RuntimeCapability

pub record RuntimeManifest : Type 0 where
  pub schema_version : ℕ
  pub runtime_id : String
  pub pid : ℕ
  pub model_lineage_id : String
  pub artifact_id : String
  pub artifact_hash : Hash256
  pub representation : ModelRepresentation
  pub quantization : Option QuantizationKind
  pub backend : String
  pub backend_version : String
  pub backend_executable : FilePath
  pub backend_executable_hash : Hash256
  pub command_line_hash : Hash256
  pub endpoint : String
  pub context_size : ℕ
  pub capabilities : List RuntimeCapability
  pub prompt_configuration_hash : Option Hash256
  pub runtime_configuration_hash : Option Hash256
  pub deployment_manifest_hash : Option Hash256
  pub approval_receipt_id : Option String
  pub created_at : String

pub record BaselineCase : Type 0 where
  pub case_id : String
  pub prompt : String
  pub output_hash : Hash256
  pub output : String

pub record BaselineManifest : Type 0 where
  pub schema_version : ℕ
  pub baseline_id : String
  pub model_lineage_id : String
  pub artifact_id : String
  pub artifact_hash : Hash256
  pub backend : String
  pub backend_version : String
  pub parameters : List String
  pub cases : List BaselineCase
  pub created_at : String

pub record TrainingAuthorizationManifest : Type 0 where
  pub schema_version : ℕ
  pub authorization_id : String
  pub base_lineage_id : String
  pub base_manifest_hash : Hash256
  pub config_hash : Hash256
  pub tokenizer_hash : Hash256
  pub dataset_hash : Hash256
  pub seed : ℕ
  pub training_config : List (String × Value)
  pub approved_allowlist : List String
  pub trainable_parameters : List String
  pub created_at : String

pub record TrainingRunManifest : Type 0 where
  pub schema_version : ℕ
  pub training_run_id : String
  pub authorization_id : String
  pub authorization_hash : Hash256
  pub base_lineage_id : String
  pub base_manifest_hash : Hash256
  pub config_hash : Hash256
  pub tokenizer_hash : Hash256
  pub dataset_hash : Hash256
  pub seed : ℕ
  pub training_config : List (String × Value)
  pub approved_allowlist : List String
  pub trainable_parameters : List String
  pub final_loss : F64
  pub gradient_norms : List F64
  pub adapter : ArtifactIdentity
  pub adapter_path : FilePath
  pub adapter_tensors : List TensorDescriptor
  pub created_at : String

pub record MergeDelta : Type 0 where
  pub changed_tensor_count : ℕ
  pub unchanged_tensor_count : ℕ
  pub max_absolute_delta : F64
  pub aggregate_norm_delta : F64

pub record SuccessorCandidateManifest : Type 0 where
  pub schema_version : ℕ
  pub candidate_id : String
  pub parent_lineage_id : String
  pub training_run_id : String
  pub training_manifest_path : FilePath
  pub training_manifest_hash : Hash256
  pub adapter_artifact_id : String
  pub candidate_path : FilePath
  pub merge_tool : String
  pub merge_tool_version : String
  pub requested_dtype : String
  pub effective_load_dtype : String
  pub merge_dtype : String
  pub output_dtype : String
  pub candidate_manifest : SubstrateManifest
  pub delta : MergeDelta
  pub equivalence_max_absolute_delta : F64
  pub equivalence_tolerance : F64
  pub created_at : String

pub record RegressionResult : Type 0 where
  pub case_id : String
  pub parent_metric : F64
  pub candidate_metric : F64
  pub delta : F64
  pub maximum_degradation : F64
  pub passed : Bool

pub record SuccessorManifest : Type 0 where
  pub schema_version : ℕ
  pub successor_lineage_id : String
  pub parent_lineage_id : String
  pub candidate_id : String
  pub training_run_id : String
  pub training_manifest_hash : Hash256
  pub candidate_manifest_hash : Hash256
  pub adapter_artifact_id : String
  pub dataset_hash : Hash256
  pub seed : ℕ
  pub training_config : List (String × Value)
  pub approved_allowlist : List String
  pub trainable_parameters : List String
  pub requested_dtype : String
  pub effective_load_dtype : String
  pub merge_dtype : String
  pub output_dtype : String
  pub merge_tool : String
  pub merge_tool_version : String
  pub tensor_manifest_hash : Hash256
  pub merge_delta : MergeDelta
  pub equivalence_max_absolute_delta : F64
  pub equivalence_tolerance : F64
  pub parent_baseline_id : String
  pub parent_baseline_hash : Hash256
  pub successor_hash : Hash256
  pub regression : List RegressionResult
  pub admitted_at : String
