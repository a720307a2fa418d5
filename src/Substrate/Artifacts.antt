-- ===== src/Substrate/Artifacts.antt =====
-- Derived artifacts: `validate_artifact_manifest` and `validate_gguf_candidate_manifest` of
-- crates/lmml-substrate/src/storage.rs.
use lmml.Base.{
  String, not, ◌&&◌, ◌||◌, ◌==◌, Option, none, some, is_empty, is_none, is_some, ok, ◌>>=◌, ◌>>◌,
  reject_if, ok_or,
}
use lmml.Base.Text.{is_blank}
use lmml.Substrate.Types.{
  ArtifactManifest, ArtifactAdmission, GgufCandidateManifest, gguf, safetensors,
}
use lmml.Substrate.Errors.{Checked, invalid_artifact_manifest}
use lmml.Substrate.Identifiers.{validate_schema_version, validate_identifier}
use lmml.Substrate.Platform.{Platform}
use lmml.Substrate.Checks.{is_absolute, representation_eq}

module _ (p : Platform) where
  unfoldable pub validate_created_at : String → String → Checked (Unit {0})
  validate_created_at created_at message = do
    time ← ok_or (p.rfc3339 created_at) (invalid_artifact_manifest message)
    ok tt

  unfoldable pub validate_parent_artifact : Option String → String → Checked (Unit {0})
  validate_parent_artifact none artifact_id = ok tt
  validate_parent_artifact (some parent) artifact_id = do
    validate_identifier parent
    reject_if (parent == artifact_id)
        (invalid_artifact_manifest "artifact cannot be its own parent")

  unfoldable pub validate_admission : Option ArtifactAdmission → Checked (Unit {0})
  validate_admission none = ok tt
  validate_admission (some admission) = do
    reject_if (is_blank admission.backend || is_blank admission.backend_version)
        (invalid_artifact_manifest "admission backend and version are required")
    validate_created_at admission.checked_at "admission.checked_at must be RFC3339"

  unfoldable pub validate_artifact_manifest : ArtifactManifest → Checked (Unit {0})
  validate_artifact_manifest manifest = do
    validate_schema_version manifest.schema_version
    validate_identifier manifest.artifact.artifact_id
    validate_identifier manifest.artifact.model_lineage_id
    validate_parent_artifact manifest.parent_artifact manifest.artifact.artifact_id
    reject_if (not (manifest.canonical_model == manifest.artifact.model_lineage_id))
        (invalid_artifact_manifest "canonical_model must match artifact.model_lineage_id")
    reject_if (not (manifest.output_hash == manifest.artifact.artifact_hash))
        (invalid_artifact_manifest "output_hash must match artifact.artifact_hash")
    reject_if (is_empty manifest.source_hashes)
        (invalid_artifact_manifest "derived artifacts require at least one source hash")
    reject_if (is_blank manifest.tool || is_blank manifest.tool_version)
        (invalid_artifact_manifest "tool, tool_version, and created_at are required")
    validate_created_at manifest.created_at "created_at must be RFC3339"
    reject_if (not (is_absolute manifest.artifact_path))
        (invalid_artifact_manifest "artifact_path must be absolute")
    validate_admission manifest.admission
    reject_if
        (representation_eq manifest.artifact.representation gguf && is_none manifest.admission)
        (invalid_artifact_manifest "GGUF artifacts require backend admission evidence")
    reject_if
        (representation_eq manifest.artifact.representation safetensors
          && is_some manifest.artifact.quantization)
        (invalid_artifact_manifest "Safetensors artifacts cannot declare GGUF quantization")

  unfoldable pub validate_gguf_candidate_manifest : GgufCandidateManifest → Checked (Unit {0})
  validate_gguf_candidate_manifest manifest = do
    validate_schema_version manifest.schema_version
    validate_identifier manifest.artifact.artifact_id
    validate_identifier manifest.artifact.model_lineage_id
    validate_identifier manifest.parent_artifact
    reject_if (manifest.parent_artifact == manifest.artifact.artifact_id)
        (invalid_artifact_manifest "GGUF candidate cannot be its own parent")
    reject_if
        (not (representation_eq manifest.artifact.representation gguf)
          || is_none manifest.artifact.quantization)
        (invalid_artifact_manifest "GGUF candidate requires GGUF representation and quantization")
    reject_if (not (manifest.canonical_model == manifest.artifact.model_lineage_id))
        (invalid_artifact_manifest "canonical_model must match artifact.model_lineage_id")
    reject_if (not (manifest.output_hash == manifest.artifact.artifact_hash))
        (invalid_artifact_manifest "output_hash must match artifact.artifact_hash")
    reject_if (is_empty manifest.source_hashes)
        (invalid_artifact_manifest "GGUF candidates require at least one source hash")
    reject_if (is_blank manifest.tool || is_blank manifest.tool_version)
        (invalid_artifact_manifest "tool and tool_version are required")
    validate_created_at manifest.created_at "created_at must be RFC3339"
    reject_if (not (is_absolute manifest.artifact_path))
        (invalid_artifact_manifest "artifact_path must be absolute")
