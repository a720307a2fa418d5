-- ===== src/Substrate/Approval/Tests.antt =====
-- A small approval on which the theorems about crates/lmml-substrate/src/approval.rs are tried: one
-- trust root, one receipt, one revocation state and a disk. The keys of this machine are all alike, and
-- the JSON text of a record is stood in for by that of its identifier.
pub mod Requests
pub mod Keys
mod Files
use lmml.Base.{
  ℕ, zero, suc, ◌-◌, ◌/◌, String, ◌&&◌, Option, none, some, List, [], ◌∷◌, ◌==◌, eqb, if◌then◌else◌,
  length, all,
}
use lmml.Base.Text.{utf8}
use lmml.Substrate.Types.{Hash256}
use lmml.Substrate.Json.{Value, string, Values}
use lmml.Substrate.Errors.{permission_denied, other}
use lmml.Substrate.Disk.{Bytes, bytes_eq, Os}
use lmml.Substrate.Approval.Types.{
  PromptConfiguration, RuntimeConfiguration, DeploymentManifest, ApprovalBundle, SnapshotFile,
  ApprovalDecision, ApprovalReceipt, RevocationEvent, RevocationState, ApprovalTrustRoot,
  TrustRootRotation, RevocationPayload, ReceiptPayload,
}
use lmml.Substrate.Approval.Platform.{Codec, Ring, ApprovalPlatform}

abbrev repeat : ℕ → Bytes
repeat zero = []
repeat (suc n) = 0xab ∷ repeat n

abbrev pub small_key : Bytes
small_key = 1 ∷ []

abbrev pub ring : Ring
ring = record {
  accepts = λ key. bytes_eq key small_key;
  public_key = λ key. repeat 32;
  sign = λ key message. repeat 64;
  verify = λ public_key message signature. eqb (length public_key) 32 && eqb (length signature) 64;
  generated = some small_key;
}

abbrev text_bytes : Value → Option Bytes
text_bytes (string s) = some (utf8 s)
text_bytes v = some (b'{' ∷ b'}' ∷ [])

abbrev codec_by : {A : Type 0} → (A → String) → Codec A
codec_by key = record { to_value = λ a. some (string (key a)); from_slice = λ bytes. none }

abbrev digest : Bytes → Hash256
digest bytes = "aaaaaaaaaaaaaaaaaaaaaaaaaaaaaaaaaaaaaaaaaaaaaaaaaaaaaaaaaaaaaaaa"

abbrev pub platform : ApprovalPlatform
platform = record {
  sha256 = digest;
  rfc3339 = λ text. if text == "2026-01-01T00:00:00Z" then some 1 else none;
  ring = ring;
  to_vec = text_bytes;
  from_slice = λ bytes. none;
  prompt_codec = codec_by λ (c : PromptConfiguration). c.renderer_id;
  runtime_codec = codec_by λ (c : RuntimeConfiguration). c.backend;
  deployment_codec = codec_by λ (m : DeploymentManifest). m.deployment_id;
  snapshot_codec = codec_by λ (files : List SnapshotFile). "files";
  bundle_codec = codec_by λ (b : ApprovalBundle). b.bundle_id;
  receipt_codec = codec_by λ (r : ApprovalReceipt). r.receipt_id;
  receipt_payload_codec = codec_by λ (r : ReceiptPayload). r.receipt_id;
  revocation_codec = codec_by λ (s : RevocationState). s.state_hash;
  revocation_payload_codec = codec_by λ (s : RevocationPayload). "revocations";
  trust_root_codec = codec_by λ (r : ApprovalTrustRoot). r.key_id;
  rotation_codec = codec_by λ (r : TrustRootRotation). r.old_key_id;
}

abbrev pub hash : Hash256
hash = "aaaaaaaaaaaaaaaaaaaaaaaaaaaaaaaaaaaaaaaaaaaaaaaaaaaaaaaaaaaaaaaa"

abbrev pub now : String
now = "2026-01-01T00:00:00Z"

-- Thirty-two and sixty-four bytes 0xab.
abbrev pub key_hex : String
key_hex = "abababababababababababababababababababababababababababababababab"

abbrev pub signature : String
signature =
    "abababababababababababababababababababababababababababababababababababababababababababababababababababababababababababababababab"

abbrev pub operator : String
operator = "operator"

abbrev pub trust_root : ApprovalTrustRoot
trust_root = record {
  schema_version = 1;
  key_id = operator;
  public_key_hex = key_hex;
  key_epoch = 1;
}

abbrev pub receipt : ApprovalReceipt
receipt = record {
  schema_version = 1;
  receipt_id = "r1";
  decision = ApprovalDecision.approved;
  model_lineage_id = "base";
  artifact_hash = hash;
  prompt_configuration_hash = hash;
  runtime_configuration_hash = hash;
  deployment_manifest_hash = hash;
  policy_version = "1";
  validation_suite_id = "suite";
  reviewer_id = "reviewer";
  signing_key_id = operator;
  sequence = 3;
  issued_at = now;
  signature_hex = signature;
}

abbrev pub event : RevocationEvent
event = record {
  schema_version = 1;
  sequence = 4;
  receipt_id = "r0";
  reason = "withdrawn";
  revoked_at = now;
}

abbrev pub state : RevocationState
state = record {
  schema_version = 1;
  epoch = 2;
  events = event ∷ record event { sequence = 5 } ∷ [];
  state_hash = hash;
  signature_hex = signature;
}

abbrev pub rotation : TrustRootRotation
rotation = record {
  schema_version = 1;
  old_key_id = operator;
  old_key_epoch = 1;
  new_root = record trust_root { key_id = "successor"; key_epoch = 2 };
  sequence = 1;
  issued_at = now;
  signature_hex = signature;
}

-- Every call succeeds, and no other process interferes.
abbrev pub calm_os : Os
calm_os = record {
  fault = λ n. none;
  read_fault = λ n. none;
  remove_fault = λ n. none;
  intruder = λ n. none;
  temporary = λ n. "/tmp/x";
  written = λ n. 0;
}

-- The n-th call fails, and no other.
abbrev pub failing_at : ℕ → Os
failing_at n = record calm_os { fault = λ k. if eqb k n then some permission_denied else none }
