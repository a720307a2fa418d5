-- ===== src/Substrate/Platform.antt =====
-- What crates/lmml-substrate takes from other crates: the SHA-256 digest, the reading of an RFC 3339
-- time, and the JSON texts that `serde_json` makes of the records. A time is a number of nanoseconds
-- from the first instant that RFC 3339 can write; `none` is a failure.
use lmml.Base.{ℕ, String, Option}
use lmml.Substrate.Types.{
  Hash256, SubstrateManifest, ArtifactManifest, GgufCandidateManifest, BaselineManifest,
  TrainingAuthorizationManifest, TrainingRunManifest, SuccessorCandidateManifest, SuccessorManifest,
  RuntimeManifest, ModelLease,
}
use lmml.Substrate.Disk.{Bytes}

-- `to_vec` of a record, and `to_vec_pretty`.
pub record Json (A : Type 0) : Type 0 where
  pub to_vec : A → Option Bytes
  pub to_vec_pretty : A → Option Bytes

pub record Platform : Type 0 where
  pub sha256 : Bytes → Hash256
  pub rfc3339 : String → Option ℕ
  pub substrate_json : Json SubstrateManifest
  pub artifact_json : Json ArtifactManifest
  pub gguf_candidate_json : Json GgufCandidateManifest
  pub baseline_json : Json BaselineManifest
  pub authorization_json : Json TrainingAuthorizationManifest
  pub training_json : Json TrainingRunManifest
  pub candidate_json : Json SuccessorCandidateManifest
  pub successor_json : Json SuccessorManifest
  pub runtime_json : Json RuntimeManifest
  pub lease_json : Json ModelLease
