-- ===== src/Substrate/Approval/Contracts.antt =====
-- The validators of crates/lmml-substrate/src/approval.rs that look at one record, but for those of
-- receipts and revocations.
use Prim.Native.String
use lmml.Base.{
  ℕ, String, Bool, not, ◌&&◌, ◌||◌, List, [], ◌∷◌, ◌==◌, leb, eqb, if◌then◌else◌, is_none, length,
  is_empty, any, all, ok, ◌>>=◌, ◌>>◌, reject_if, for_each, ok_or,
}
use lmml.Base.Text.{codes, is_blank, mem_text, starts_with}
use lmml.Substrate.Types.{FilePath}
use lmml.Substrate.Errors.{SubstrateError, invalid_approval_contract, Checked}
use lmml.Substrate.Disk.{bytes_eq}
use lmml.Substrate.Approval.Types.{
  approval_schema_version, PromptConfiguration, EnvironmentIdentity, RuntimeConfiguration,
  DeploymentManifest, ApprovalBundle, ApprovalReceipt, ApprovalTrustRoot, TrustRootRotation,
}
use lmml.Substrate.Approval.Platform.{ApprovalPlatform}
use lmml.Substrate.Approval.Hex.{hex_decode}

abbrev pub contract : String → SubstrateError
contract text = invalid_approval_contract text

abbrev pub unsupported : ℕ → Bool
unsupported version = not (eqb version approval_schema_version)

unfoldable pub require_text : (value name : String) → Checked (Unit {0})
require_text value name = reject_if (is_blank value) (contract (String.◌++◌ name " is empty"))

abbrev is_environment_byte : ℕ → Bool
is_environment_byte c = (leb b'A' c && leb c b'Z') || (leb b'0' c && leb c b'9') || eqb c b'_'

unfoldable pub validate_approval_bundle : ApprovalBundle → Checked (Unit {0})
validate_approval_bundle bundle = do
  reject_if (unsupported bundle.schema_version) (contract "unsupported approval bundle schema")
  reject_if (is_blank bundle.bundle_id) (contract "approval bundle id is empty")
  reject_if
      (is_blank bundle.backend_api_key_env
        || not (all is_environment_byte (codes bundle.backend_api_key_env)))
      (contract "backend API key environment name is invalid")
  reject_if (eqb bundle.public_port 0 || eqb bundle.backend_port 0 || eqb bundle.context 0)
      (contract "approval bundle ports and context must be non-zero")
  for_each (λ path. reject_if (path == "") (contract "approval bundle contains an empty path"))
      (bundle.prompt ∷ bundle.runtime ∷ bundle.deployment ∷ bundle.snapshot_root ∷ bundle.receipt
        ∷ bundle.trust_root ∷ [])

unfoldable pub validate_prompt_configuration : PromptConfiguration → Checked (Unit {0})
validate_prompt_configuration configuration = do
  reject_if
      (unsupported configuration.schema_version
        || unsupported configuration.template.schema_version
        || unsupported configuration.request_schema.schema_version)
      (contract "unsupported prompt schema")
  require_text configuration.model_lineage_id "model_lineage_id"
  require_text configuration.renderer_id "renderer_id"
  require_text configuration.renderer_version "renderer_version"
  require_text configuration.request_schema.schema_id "schema_id"

-- The loop over the environment; `seen` is the set of names so far.
unfoldable pub check_environment :
    (seen : List String) → List EnvironmentIdentity → Checked (Unit {0})
check_environment seen [] = ok tt
check_environment seen (entry ∷ entries) = do
  reject_if (mem_text entry.name seen)
      (contract (String.◌++◌ "environment name is duplicated: " entry.name))
  reject_if (not entry.secret_presence_only && is_none entry.value_hash)
      (contract (String.◌++◌ "non-secret environment has no value hash: " entry.name))
  check_environment (entry.name ∷ seen) entries

unfoldable pub validate_runtime_configuration : RuntimeConfiguration → Checked (Unit {0})
validate_runtime_configuration configuration = do
  reject_if (unsupported configuration.schema_version) (contract "unsupported runtime schema")
  require_text configuration.backend "backend"
  require_text configuration.backend_version "backend_version"
  reject_if (is_empty configuration.resolved_argv) (contract "resolved argv is empty")
  reject_if
      (any (λ (entry : EnvironmentIdentity). is_blank entry.name) configuration.allowed_environment)
      (contract "environment name is empty")
  check_environment [] configuration.allowed_environment

abbrev pub prepend : ℕ → List (List ℕ) → List (List ℕ)
prepend d [] = (d ∷ []) ∷ []
prepend d (part ∷ parts) = (d ∷ part) ∷ parts

-- `path.components()` as texts between slashes, and whether one of them is `..`.
unfoldable pub split_on : ℕ → List ℕ → List (List ℕ)
split_on c [] = [] ∷ []
split_on c (d ∷ ds) = let rest = split_on c ds in if eqb d c then [] ∷ rest else prepend d rest

unfoldable pub validate_relative_path : FilePath → Checked (Unit {0})
unfolding split_on
validate_relative_path path =
    reject_if
      (starts_with "/" path
        || any (λ part. bytes_eq part (codes "..")) (split_on b'/' (codes path))
        || path == "")
      (contract (String.◌++◌ "invalid snapshot relative path: " path))

unfoldable pub validate_approval_trust_root : ApprovalTrustRoot → Checked (Unit {0})
validate_approval_trust_root trust_root = do
  reject_if (unsupported trust_root.schema_version) (contract "unsupported trust-root schema")
  require_text trust_root.key_id "key_id"
  reject_if (eqb trust_root.key_epoch 0) (contract "trust-root key_epoch must be positive")
  key ← hex_decode trust_root.public_key_hex
  reject_if (not (eqb (length key) 32)) (contract "Ed25519 public key must be 32 bytes")

module _ (p : ApprovalPlatform) where
  unfoldable pub validate_timestamp : String → Checked (Unit {0})
  validate_timestamp value = do
    time ← ok_or (p.rfc3339 value) (contract (String.◌++◌ "invalid RFC3339 timestamp: " value))
    ok tt

  unfoldable pub validate_deployment_manifest : DeploymentManifest → Checked (Unit {0})
  validate_deployment_manifest manifest = do
    reject_if (unsupported manifest.schema_version) (contract "unsupported deployment schema")
    require_text manifest.deployment_id "deployment_id"
    require_text manifest.model_lineage_id "model_lineage_id"
    reject_if (is_empty manifest.files) (contract "deployment manifest has no files")
    validate_timestamp manifest.created_at

  unfoldable pub validate_receipt_fields : ApprovalReceipt → Checked (Unit {0})
  validate_receipt_fields receipt = do
    reject_if (unsupported receipt.schema_version) (contract "unsupported receipt schema")
    require_text receipt.receipt_id "receipt_id"
    require_text receipt.model_lineage_id "model_lineage_id"
    require_text receipt.policy_version "policy_version"
    require_text receipt.validation_suite_id "validation_suite_id"
    require_text receipt.reviewer_id "reviewer_id"
    require_text receipt.signing_key_id "signing_key_id"
    validate_timestamp receipt.issued_at

  unfoldable pub validate_trust_root_rotation : TrustRootRotation → Checked (Unit {0})
  validate_trust_root_rotation rotation = do
    reject_if (unsupported rotation.schema_version)
        (contract "unsupported trust-root rotation schema")
    require_text rotation.old_key_id "old_key_id"
    reject_if (eqb rotation.old_key_epoch 0 || eqb rotation.sequence 0)
        (contract "trust-root rotation epoch and sequence must be positive")
    validate_approval_trust_root rotation.new_root
    reject_if (is_none (p.rfc3339 rotation.issued_at))
        (contract "trust-root rotation timestamp is not RFC3339")
