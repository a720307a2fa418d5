-- ===== src/Substrate/Admission.antt =====
-- The append-only records of crates/lmml-substrate: `store_substrate_manifest`,
-- `append_artifact_manifest` and `append_gguf_candidate_manifest` of src/storage.rs, and the stores
-- of src/lifecycle.rs, `store_admitted_successor` with its rollback among them.
pub mod Effects
use Prim.Native.String
use lmml.Base.{
  ℕ, String, Bool, true, false, not, ◌&&◌, ◌||◌, ◌==◌, Option, Result, ok, err, ok_or, reject_if,
}
use lmml.Substrate.Types.{
  FilePath, SubstrateManifest, ArtifactManifest, GgufCandidateManifest, BaselineManifest,
  TrainingAuthorizationManifest, TrainingRunManifest, SuccessorCandidateManifest, SuccessorManifest,
  RuntimeManifest, ModelLease,
}
use lmml.Substrate.Errors.{
  Checked, SubstrateError, serialize, invalid_lifecycle_manifest, manifest_conflict,
  lifecycle_conflict, artifact_conflict, candidate_conflict,
}
use lmml.Substrate.Disk.{Bytes, Os, World, Action, ◌>>=◌, ◌>>◌, lift, attempt}
use lmml.Substrate.Persist.{
  PersistOutcome, created, existing, persist_immutable, persist_immutable_with_outcome,
  preflight_immutable, rollback_exact,
}
use lmml.Substrate.Platform.{Platform, Json}
use lmml.Substrate.Canonical.{validate_substrate_manifest}
use lmml.Substrate.Artifacts.{validate_artifact_manifest, validate_gguf_candidate_manifest}
use lmml.Substrate.Training.{
  validate_baseline_manifest, validate_training_authorization_manifest,
  validate_training_run_manifest,
}
use lmml.Substrate.Successors.{
  is_text, validate_successor_candidate_manifest, validate_successor_manifest,
}
use lmml.Substrate.Agreement.{pretty, admitted_payloads}
use lmml.Substrate.Leases.{validate_runtime_manifest, validate_model_lease}

module _ (os : Os) where
  -- `store_json`
  unfoldable pub store_json : {A : Type 0} → Json A → FilePath → A → Action FilePath
  store_json json path value = do
    payload ← lift (pretty json value)
    persist_immutable os path payload lifecycle_conflict
    lift (ok path)

  -- A record that is validated, then stored.
  abbrev store_checked : {A : Type 0} → Checked (Unit {0}) → Json A → FilePath → A → Action FilePath
  store_checked verdict json path value = do lift verdict; store_json json path value

  unfoldable pub undo : PersistOutcome → FilePath → Bytes → Action (Unit {0})
  undo created path payload = rollback_exact os path payload
  undo existing path payload = lift (ok tt)

  -- What follows the publication of the admission record: where it failed, a canonical record made by
  -- this call goes.
  unfoldable pub settle :
      PersistOutcome
      → (canonical_path : FilePath) → Bytes
      → Checked PersistOutcome
      → Action (Unit {0})
  unfolding undo
  settle outcome canonical_path canonical_payload (ok done) = lift (ok tt)
  settle outcome canonical_path canonical_payload (err error) = do
    undo outcome canonical_path canonical_payload
    lift (err error)

  unfoldable pub publish_admission :
      PersistOutcome
      → (canonical_path : FilePath) → Bytes
      → (admission_path : FilePath) → Bytes
      → Action (Unit {0})
  publish_admission outcome canonical_path canonical_payload admission_path admission_payload w =
      let (answer, w') =
        persist_immutable_with_outcome os admission_path admission_payload lifecycle_conflict w in
      settle outcome canonical_path canonical_payload answer w'

  module _ (p : Platform) where
    unfoldable pub store_baseline_manifest : FilePath → BaselineManifest → Action FilePath
    store_baseline_manifest path manifest =
        store_checked (validate_baseline_manifest p manifest) p.baseline_json path manifest

    unfoldable pub store_training_authorization_manifest :
        FilePath → TrainingAuthorizationManifest → Action FilePath
    store_training_authorization_manifest path manifest =
        store_checked (validate_training_authorization_manifest p manifest) p.authorization_json
          path manifest

    unfoldable pub store_training_run_manifest : FilePath → TrainingRunManifest → Action FilePath
    store_training_run_manifest path manifest =
        store_checked (validate_training_run_manifest p manifest) p.training_json path manifest

    unfoldable pub store_successor_candidate_manifest :
        FilePath → SuccessorCandidateManifest → Action FilePath
    store_successor_candidate_manifest path manifest =
        store_checked (validate_successor_candidate_manifest p manifest) p.candidate_json path
          manifest

    unfoldable pub store_successor_manifest : FilePath → SuccessorManifest → Action FilePath
    store_successor_manifest path manifest =
        store_checked (validate_successor_manifest p manifest) p.successor_json path manifest

    unfoldable pub store_runtime_manifest : FilePath → RuntimeManifest → Action FilePath
    store_runtime_manifest path manifest =
        store_checked (validate_runtime_manifest p manifest) p.runtime_json path manifest

    unfoldable pub store_model_lease : FilePath → ModelLease → Action FilePath
    store_model_lease path lease =
        store_checked (validate_model_lease lease) p.lease_json path lease

    unfoldable pub store_substrate_manifest : FilePath → SubstrateManifest → Action FilePath
    store_substrate_manifest path manifest = do
      lift (validate_substrate_manifest p manifest)
      payload ← lift (pretty p.substrate_json manifest)
      persist_immutable os path payload manifest_conflict
      lift (ok path)

    abbrev record_path : FilePath → String → FilePath
    record_path root id = String.◌++◌ root (String.◌++◌ "/" (String.◌++◌ id ".json"))

    unfoldable pub append_artifact_manifest : FilePath → ArtifactManifest → Action FilePath
    append_artifact_manifest root manifest = do
      lift (validate_artifact_manifest p manifest)
      attempt os root
      let path = record_path root manifest.artifact.artifact_id
      payload ← lift (pretty p.artifact_json manifest)
      persist_immutable os path payload artifact_conflict
      lift (ok path)

    unfoldable pub append_gguf_candidate_manifest :
        FilePath → GgufCandidateManifest → Action FilePath
    append_gguf_candidate_manifest root manifest = do
      lift (validate_gguf_candidate_manifest p manifest)
      attempt os root
      let path = record_path root manifest.artifact.artifact_id
      payload ← lift (pretty p.gguf_candidate_json manifest)
      persist_immutable os path payload candidate_conflict
      lift (ok path)

    unfoldable pub store_admitted_successor :
        (canonical_path : FilePath)
        → SubstrateManifest
        → (admission_path : FilePath) → SuccessorManifest
        → Action (FilePath × FilePath)
    store_admitted_successor canonical_path canonical admission_path admission = do
      payloads ← lift (admitted_payloads p canonical admission)
      preflight_immutable os canonical_path payloads.0 manifest_conflict
      preflight_immutable os admission_path payloads.1 lifecycle_conflict
      outcome ← persist_immutable_with_outcome os canonical_path payloads.0 manifest_conflict
      publish_admission outcome canonical_path payloads.0 admission_path payloads.1
      lift (ok (canonical_path, admission_path))
