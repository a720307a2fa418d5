-- ===== src/Substrate/Approval/Signing.antt =====
-- Canonical texts, digests and signatures: of crates/lmml-substrate/src/approval.rs the functions
-- `canonical_json` and `domain_hash`, the payloads, and the functions `sign_*` and `verify_*` with
-- `validate_revocation_state`.
pub mod RoundTrip
use Prim.Native.String
use lmml.Base.{
  ℕ, zero, ◌+◌, ◌-◌, ◌*◌, ◌/◌, String, not, ◌||◌, List, [], ◌∷◌, ◌++◌, ◌==◌, leb, eqb, ok, ◌>>=◌,
  ◌>>◌, reject_if, ok_or,
}
use lmml.Base.Text.{utf8}
use lmml.Substrate.Types.{Hash256}
use lmml.Substrate.Errors.{
  SubstrateError, invalid_approval_contract, unsigned_approval, approval_signature_invalid,
  approval_rollback, serialize, Checked,
}
use lmml.Substrate.Disk.{Bytes}
use lmml.Substrate.Approval.Types.{
  approval_schema_version, PromptConfiguration, RuntimeConfiguration, DeploymentManifest,
  ApprovalReceipt, RevocationEvent, RevocationState, ApprovalTrustRoot, TrustRootRotation,
  ReceiptPayload,
}
use lmml.Substrate.Approval.Platform.{Codec, ApprovalPlatform}
use lmml.Substrate.Approval.Json.{canonical_value}
use lmml.Substrate.Approval.Hex.{hex_encode, hex_decode}
use lmml.Substrate.Approval.Contracts.{
  contract, unsupported, require_text, validate_prompt_configuration,
  validate_runtime_configuration, validate_approval_trust_root, validate_timestamp,
  validate_deployment_manifest, validate_receipt_fields, validate_trust_root_rotation,
}

abbrev pub invalid_signing_key : SubstrateError
invalid_signing_key = invalid_approval_contract "invalid signing key"

module _ (p : ApprovalPlatform) where
  unfoldable pub canonical_json : {A : Type 0} → Codec A → A → Checked Bytes
  canonical_json codec a = do
    value ← ok_or (codec.to_value a) serialize
    ok_or (p.to_vec (canonical_value value)) serialize

  -- The domain, a zero byte, and the canonical text.
  unfoldable pub domain_bytes : {A : Type 0} → String → Codec A → A → Checked Bytes
  domain_bytes domain codec a = do text ← canonical_json codec a; ok (utf8 domain ++ 0 ∷ text)

  unfoldable pub domain_hash : {A : Type 0} → String → Codec A → A → Checked Hash256
  unfolding domain_bytes
  domain_hash domain codec a = do bytes ← domain_bytes domain codec a; ok (p.sha256 bytes)

  unfoldable pub prompt_configuration_hash : PromptConfiguration → Checked Hash256
  prompt_configuration_hash configuration =
      validate_prompt_configuration configuration
      >> domain_hash "LMML/PROMPT-CONFIG/v1" p.prompt_codec configuration

  unfoldable pub runtime_configuration_hash : RuntimeConfiguration → Checked Hash256
  runtime_configuration_hash configuration =
      validate_runtime_configuration configuration
      >> domain_hash "LMML/RUNTIME-CONFIG/v1" p.runtime_codec configuration

  unfoldable pub deployment_manifest_hash : DeploymentManifest → Checked Hash256
  deployment_manifest_hash manifest =
      validate_deployment_manifest p manifest
      >> domain_hash "LMML/DEPLOYMENT-MANIFEST/v1" p.deployment_codec manifest

  abbrev pub payload_of : ApprovalReceipt → ReceiptPayload
  payload_of receipt = record {
    schema_version = receipt.schema_version;
    receipt_id = receipt.receipt_id;
    decision = receipt.decision;
    model_lineage_id = receipt.model_lineage_id;
    artifact_hash = receipt.artifact_hash;
    prompt_configuration_hash = receipt.prompt_configuration_hash;
    runtime_configuration_hash = receipt.runtime_configuration_hash;
    deployment_manifest_hash = receipt.deployment_manifest_hash;
    policy_version = receipt.policy_version;
    validation_suite_id = receipt.validation_suite_id;
    reviewer_id = receipt.reviewer_id;
    signing_key_id = receipt.signing_key_id;
    sequence = receipt.sequence;
    issued_at = receipt.issued_at;
  }

  unfoldable pub receipt_payload : ApprovalReceipt → Checked Bytes
  receipt_payload receipt =
      domain_bytes "LMML/APPROVAL-RECEIPT/v1" p.receipt_payload_codec (payload_of receipt)

  unfoldable pub revocation_payload : RevocationState → Checked Bytes
  revocation_payload state =
      domain_bytes "LMML/REVOCATION-STATE/v1" p.revocation_payload_codec
        (record { epoch = state.epoch; events = state.events })

  unfoldable pub revocation_state_hash : ℕ → List RevocationEvent → Checked Hash256
  revocation_state_hash epoch events =
      domain_hash "LMML/REVOCATION-STATE/v1" p.revocation_payload_codec
        (record { epoch = epoch; events = events })

  unfoldable pub trust_rotation_payload : TrustRootRotation → Checked Bytes
  trust_rotation_payload rotation =
      domain_bytes "LMML/TRUST-ROOT-ROTATION/v1" p.rotation_codec
        (record rotation { signature_hex = "" })

  unfoldable pub check_events : (previous : ℕ) → List RevocationEvent → Checked (Unit {0})
  check_events previous [] = ok tt
  check_events previous (event ∷ events) = do
    reject_if (unsupported event.schema_version || leb event.sequence previous)
        (contract "revocation sequence is not increasing")
    require_text event.receipt_id "receipt_id"
    require_text event.reason "reason"
    validate_timestamp p event.revoked_at
    check_events event.sequence events

  unfoldable pub validate_revocation_state : RevocationState → Checked (Unit {0})
  validate_revocation_state state = do
    reject_if (unsupported state.schema_version) (contract "unsupported revocation schema")
    check_events 0 state.events
    expected ← revocation_state_hash state.epoch state.events
    reject_if (not (expected == state.state_hash))
        (approval_rollback "revocation state hash mismatch")

  -- `Ed25519KeyPair::from_pkcs8(key)`, then the hexadecimal signature of a payload.
  unfoldable pub sign_payload : (private_key : Bytes) → Checked Bytes → Checked String
  sign_payload private_key payload = do
    reject_if (not (p.ring.accepts private_key)) invalid_signing_key
    message ← payload
    ok (hex_encode (p.ring.sign private_key message))

  unfoldable pub sign_approval_receipt : ApprovalReceipt → Bytes → Checked ApprovalReceipt
  sign_approval_receipt receipt private_key = do
    validate_receipt_fields p receipt
    signature ← sign_payload private_key (receipt_payload receipt)
    ok (record receipt { signature_hex = signature })

  unfoldable pub sign_revocation_state : RevocationState → Bytes → Checked RevocationState
  sign_revocation_state state private_key = do
    validate_revocation_state state
    signature ← sign_payload private_key (revocation_payload state)
    ok (record state { signature_hex = signature })

  unfoldable pub sign_trust_root_rotation : TrustRootRotation → Bytes → Checked TrustRootRotation
  sign_trust_root_rotation rotation private_key = do
    validate_trust_root_rotation p rotation
    signature ← sign_payload private_key (trust_rotation_payload rotation)
    ok (record rotation { signature_hex = signature })

  -- The key and the signature are decoded, then the signature of the payload is checked.
  unfoldable pub verify_payload :
      (public_key_hex signature_hex : String) → Checked Bytes → Checked (Unit {0})
  verify_payload public_key_hex signature_hex payload = do
    public_key ← hex_decode public_key_hex
    signature ← hex_decode signature_hex
    message ← payload
    reject_if (not (p.ring.verify public_key message signature)) approval_signature_invalid

  unfoldable pub verify_approval_receipt : ApprovalReceipt → ApprovalTrustRoot → Checked (Unit {0})
  verify_approval_receipt receipt trust_root = do
    validate_receipt_fields p receipt
    validate_approval_trust_root trust_root
    reject_if (receipt.signature_hex == "") unsigned_approval
    reject_if (not (receipt.signing_key_id == trust_root.key_id)) approval_signature_invalid
    verify_payload trust_root.public_key_hex receipt.signature_hex (receipt_payload receipt)

  unfoldable pub verify_revocation_state : RevocationState → ApprovalTrustRoot → Checked (Unit {0})
  verify_revocation_state state trust_root = do
    validate_revocation_state state
    validate_approval_trust_root trust_root
    reject_if (state.signature_hex == "") unsigned_approval
    verify_payload trust_root.public_key_hex state.signature_hex (revocation_payload state)

  unfoldable pub verify_trust_root_rotation :
      TrustRootRotation → ApprovalTrustRoot → Checked (Unit {0})
  verify_trust_root_rotation rotation old_root = do
    validate_trust_root_rotation p rotation
    validate_approval_trust_root old_root
    reject_if
        (not (rotation.old_key_id == old_root.key_id)
          || not (eqb rotation.old_key_epoch old_root.key_epoch))
        approval_signature_invalid
    reject_if (rotation.signature_hex == "") unsigned_approval
    verify_payload old_root.public_key_hex rotation.signature_hex (trust_rotation_payload rotation)

  abbrev pub root_for : (key_id : String) (private_key : Bytes) → ApprovalTrustRoot
  root_for key_id private_key = record {
    schema_version = approval_schema_version;
    key_id = key_id;
    public_key_hex = hex_encode (p.ring.public_key private_key);
    key_epoch = 1;
  }

  -- A fresh key, and its trust root.
  unfoldable pub generate_approval_trust_root : String → Checked (ApprovalTrustRoot × Bytes)
  generate_approval_trust_root key_id = do
    private_key ← ok_or p.ring.generated (contract "key generation failed")
    reject_if (not (p.ring.accepts private_key)) (contract "generated key is invalid")
    ok (root_for key_id private_key, private_key)
