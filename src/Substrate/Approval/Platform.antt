-- ===== src/Substrate/Approval/Platform.antt =====
-- What crates/lmml-substrate/src/approval.rs takes from other crates: SHA-256, RFC 3339 times, the
-- Ed25519 keys of `ring`, and `serde_json`. `none` is a failure.
use lmml.Base.{ℕ, String, Bool, Option, List}
use lmml.Substrate.Json.{Value}
use lmml.Substrate.Types.{Hash256}
use lmml.Substrate.Disk.{Bytes}
use lmml.Substrate.Approval.Types.{
  ApprovalBundle, PromptConfiguration, RuntimeConfiguration, DeploymentManifest, SnapshotFile,
  ApprovalReceipt, ReceiptPayload, RevocationState, RevocationPayload, ApprovalTrustRoot,
  TrustRootRotation,
}

-- `to_value` of a record, and `from_slice`.
pub record Codec (A : Type 0) : Type 0 where
  pub to_value : A → Option Value
  pub from_slice : Bytes → Option A

-- A private key is its PKCS#8 bytes; `accepts` says that `from_pkcs8` takes them.
pub record Ring : Type 0 where
  pub accepts : Bytes → Bool
  pub public_key : Bytes → Bytes
  pub sign : (private_key message : Bytes) → Bytes
  pub verify : (public_key message signature : Bytes) → Bool
  pub generated : Option Bytes

pub record ApprovalPlatform : Type 0 where
  pub sha256 : Bytes → Hash256
  pub rfc3339 : String → Option ℕ
  pub ring : Ring
  pub to_vec : Value → Option Bytes
  pub from_slice : Bytes → Option Value
  pub prompt_codec : Codec PromptConfiguration
  pub runtime_codec : Codec RuntimeConfiguration
  pub deployment_codec : Codec DeploymentManifest
  pub snapshot_codec : Codec (List SnapshotFile)
  pub bundle_codec : Codec ApprovalBundle
  pub receipt_codec : Codec ApprovalReceipt
  pub receipt_payload_codec : Codec ReceiptPayload
  pub revocation_codec : Codec RevocationState
  pub revocation_payload_codec : Codec RevocationPayload
  pub trust_root_codec : Codec ApprovalTrustRoot
  pub rotation_codec : Codec TrustRootRotation
