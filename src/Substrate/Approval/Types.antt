-- ===== src/Substrate/Approval/Types.antt =====
-- The records of crates/lmml-substrate/src/approval.rs.
use lmml.Base.{ℕ, String, Bool, Option, List}
use lmml.Base.Int.{ℤ}
use lmml.Substrate.Json.{Value}
use lmml.Substrate.Types.{FilePath, Hash256}

abbrev pub approval_schema_version : ℕ
approval_schema_version = 1

pub data TemplateConversionStatus : Type 0 where
  preserved normalized changed : TemplateConversionStatus

pub record TemplateIdentity : Type 0 where
  pub schema_version : ℕ
  pub source_template_container_hash : Hash256
  pub source_template_hash : Option Hash256
  pub selected_variant : String
  pub builtin_registry_hash : Option Hash256
  pub gguf_embedded_template_hash : Option Hash256
  pub external_template_hash : Option Hash256
  pub effective_template_hash : Hash256
  pub conversion_status : TemplateConversionStatus

pub record TemplateSourceInspection : Type 0 where
  pub schema_version : ℕ
  pub source_template_container_hash : Hash256
  pub template_hashes : List (String × Hash256)
  pub external_template_hash : Option Hash256
  pub special_tokens_hash : Option Hash256

pub record RequestPromptSchema : Type 0 where
  pub schema_version : ℕ
  pub schema_id : String
  pub allowed_roles : List String
  pub allowed_content_types : List String
  pub max_tools : ℕ
  pub max_nesting : ℕ
  pub max_request_bytes : ℕ
  pub max_context_tokens : ℕ
  pub reasoning_controls : Bool
  pub assistant_prefill : Bool
  pub permitted_template_kwargs : List (String × Value)

pub record PromptConfiguration : Type 0 where
  pub schema_version : ℕ
  pub model_lineage_id : String
  pub artifact_hash : Hash256
  pub source_tokenizer_manifest_hash : Hash256
  pub deployed_tokenizer_metadata_hash : Hash256
  pub special_token_map_hash : Hash256
  pub effective_tokenizer_hash : Hash256
  pub template : TemplateIdentity
  pub renderer_id : String
  pub renderer_version : String
  pub renderer_build_hash : Hash256
  pub renderer_settings : List (String × Value)
  pub request_schema : RequestPromptSchema
  pub multimodal_processor_hash : Option Hash256
  pub mmproj_hash : Option Hash256

pub record LibraryIdentity : Type 0 where
  pub path : FilePath
  pub sha256 : Hash256
  pub required : Bool

pub record EnvironmentIdentity : Type 0 where
  pub name : String
  pub value_hash : Option Hash256
  pub secret_presence_only : Bool

pub record RuntimeConfiguration : Type 0 where
  pub schema_version : ℕ
  pub prompt_configuration_hash : Hash256
  pub backend : String
  pub backend_version : String
  pub executable_hash : Hash256
  pub resolved_argv : List String
  pub allowed_environment : List EnvironmentIdentity
  pub loaded_libraries : List LibraryIdentity
  pub settings : List (String × Value)

pub record DeploymentManifest : Type 0 where
  pub schema_version : ℕ
  pub deployment_id : String
  pub model_lineage_id : String
  pub artifact_hash : Hash256
  pub prompt_configuration_hash : Hash256
  pub runtime_configuration_hash : Hash256
  pub snapshot_hash : Hash256
  pub files : List LibraryIdentity
  pub created_at : String

pub record ApprovalBundle : Type 0 where
  pub schema_version : ℕ
  pub bundle_id : String
  pub prompt : FilePath
  pub runtime : FilePath
  pub deployment : FilePath
  pub snapshot_root : FilePath
  pub receipt : FilePath
  pub trust_root : FilePath
  pub revocation_state : Option FilePath
  pub backend_api_key_env : String
  pub public_port : ℕ
  pub backend_port : ℕ
  pub context : ℕ
  pub gpu_layers : ℤ
  pub threads : ℕ

pub record SnapshotInput : Type 0 where
  pub source : FilePath
  pub relative_path : FilePath
  pub required : Bool

pub record SnapshotFile : Type 0 where
  pub relative_path : FilePath
  pub sha256 : Hash256
  pub size_bytes : ℕ
  pub required : Bool

pub data ApprovalDecision : Type 0 where
  approved rejected : ApprovalDecision

pub data AdmissionState : Type 0 where
  unknown extracted needs_review approved rejected blocked revoked invalidated runtime_verified :
      AdmissionState

pub record AdmissionStatus : Type 0 where
  pub state : AdmissionState
  pub reason : String

pub record ApprovalReceipt : Type 0 where
  pub schema_version : ℕ
  pub receipt_id : String
  pub decision : ApprovalDecision
  pub model_lineage_id : String
  pub artifact_hash : Hash256
  pub prompt_configuration_hash : Hash256
  pub runtime_configuration_hash : Hash256
  pub deployment_manifest_hash : Hash256
  pub policy_version : String
  pub validation_suite_id : String
  pub reviewer_id : String
  pub signing_key_id : String
  pub sequence : ℕ
  pub issued_at : String
  pub signature_hex : String

pub record RevocationEvent : Type 0 where
  pub schema_version : ℕ
  pub sequence : ℕ
  pub receipt_id : String
  pub reason : String
  pub revoked_at : String

pub record RevocationState : Type 0 where
  pub schema_version : ℕ
  pub epoch : ℕ
  pub events : List RevocationEvent
  pub state_hash : Hash256
  pub signature_hex : String

pub record ApprovalTrustRoot : Type 0 where
  pub schema_version : ℕ
  pub key_id : String
  pub public_key_hex : String
  pub key_epoch : ℕ

pub record TrustRootRotation : Type 0 where
  pub schema_version : ℕ
  pub old_key_id : String
  pub old_key_epoch : ℕ
  pub new_root : ApprovalTrustRoot
  pub sequence : ℕ
  pub issued_at : String
  pub signature_hex : String

pub record RevocationPayload : Type 0 where
  pub epoch : ℕ
  pub events : List RevocationEvent

pub record ReceiptPayload : Type 0 where
  pub schema_version : ℕ
  pub receipt_id : String
  pub decision : ApprovalDecision
  pub model_lineage_id : String
  pub artifact_hash : Hash256
  pub prompt_configuration_hash : Hash256
  pub runtime_configuration_hash : Hash256
  pub deployment_manifest_hash : Hash256
  pub policy_version : String
  pub validation_suite_id : String
  pub reviewer_id : String
  pub signing_key_id : String
  pub sequence : ℕ
  pub issued_at : String
