-- ===== src/Substrate/Leases.antt =====
-- Runtimes and leases: `validate_runtime_manifest`, `runtime_manifest_hash`, `validate_model_lease`
-- and `issue_model_lease` of crates/lmml-substrate/src/lifecycle.rs.
pub mod Selection
pub mod Issue
pub mod Suited
pub mod Terms
use Prim.Native.String
use lmml.Base.{
  String, Bool, not, ◌&&◌, ◌||◌, ◌==◌, eqb, Option, none, some, List, [], ◌∷◌, is_empty, is_some,
  any, all, find, ok, err, ◌>>=◌, ◌>>◌, reject_if, for_each, ok_or, if◌then◌else◌,
}
use lmml.Base.Text.{is_blank, text_lt}
use lmml.Substrate.Types.{
  Hash256, RuntimeManifest, RuntimeCapability, hidden_state_observation, eleven_tap_observation,
  ModelLease, ModelRequest, ArtifactManifest,
}
use lmml.Substrate.Errors.{
  Checked, invalid_lifecycle_manifest, runtime_capability_unsupported, serialize,
}
use lmml.Substrate.Identifiers.{validate_schema_version, validate_identifier}
use lmml.Substrate.Platform.{Platform}
use lmml.Substrate.Checks.{
  is_absolute, representation_eq, quantization_eq, capability_eq, validate_timestamp,
}
use lmml.Substrate.Artifacts.{validate_artifact_manifest}

abbrev pub observes : RuntimeCapability → Bool
observes capability =
    capability_eq capability hidden_state_observation
    || capability_eq capability eleven_tap_observation

unfoldable pub validate_model_lease : ModelLease → Checked (Unit {0})
validate_model_lease lease = do
  validate_identifier lease.lease_id
  validate_identifier lease.model_lineage_id
  validate_identifier lease.artifact_id
  validate_identifier lease.runtime_id
  reject_if (is_blank lease.endpoint || is_empty lease.capabilities)
      (invalid_lifecycle_manifest "model lease requires endpoint and capabilities")

-- The second filter of the selection.
unfoldable pub is_eligible : ModelRequest → RuntimeManifest → ArtifactManifest → Bool
is_eligible request runtime artifact =
    (runtime.model_lineage_id == request.model_lineage_id)
    && (runtime.model_lineage_id == artifact.artifact.model_lineage_id)
    && (runtime.artifact_hash == artifact.artifact.artifact_hash)
    && representation_eq runtime.representation artifact.artifact.representation
    && quantization_eq runtime.quantization artifact.artifact.quantization
    && is_some artifact.admission
    && any (λ r. representation_eq r runtime.representation) request.representation_preference
    && all (λ needed. any (λ c. capability_eq c needed) runtime.capabilities)
        request.required_capabilities

abbrev pub artifact_of : List ArtifactManifest → RuntimeManifest → Option ArtifactManifest
artifact_of artifacts runtime =
    find (λ (a : ArtifactManifest). a.artifact.artifact_id == runtime.artifact_id) artifacts

abbrev pub keep_eligible :
    ModelRequest
    → RuntimeManifest
    → Option ArtifactManifest
    → List (RuntimeManifest × ArtifactManifest)
    → List (RuntimeManifest × ArtifactManifest)
keep_eligible request runtime none rest = rest
keep_eligible request runtime (some artifact) rest =
    if is_eligible request runtime artifact then (runtime, artifact) ∷ rest else rest

-- The eligible pairs, in the order of the runtimes.
unfoldable pub eligible_pairs :
    ModelRequest
    → List ArtifactManifest
    → List RuntimeManifest
    → List (RuntimeManifest × ArtifactManifest)
eligible_pairs request artifacts [] = []
eligible_pairs request artifacts (runtime ∷ runtimes) =
    keep_eligible request runtime (artifact_of artifacts runtime)
      (eligible_pairs request artifacts runtimes)

-- The stable sort by `runtime_id`.
unfoldable pub insert_by_id :
    RuntimeManifest × ArtifactManifest
    → List (RuntimeManifest × ArtifactManifest)
    → List (RuntimeManifest × ArtifactManifest)
insert_by_id pair [] = pair ∷ []
insert_by_id pair (next ∷ rest) =
    if text_lt next.0.runtime_id pair.0.runtime_id
    then next ∷ insert_by_id pair rest
    else pair ∷ next ∷ rest

unfoldable pub sort_by_id :
    List (RuntimeManifest × ArtifactManifest) → List (RuntimeManifest × ArtifactManifest)
sort_by_id [] = []
sort_by_id (pair ∷ rest) = insert_by_id pair (sort_by_id rest)

abbrev pub first : List Hash256 → Hash256
first [] = ""
first (hash ∷ rest) = hash

-- The lease of the chosen pair. Its artifact is valid, so it has a first source hash.
abbrev pub lease_of :
    ModelRequest → String → RuntimeManifest → ArtifactManifest → Hash256 → ModelLease
lease_of request lease_id runtime artifact hash = record {
  lease_id = lease_id;
  model_lineage_id = request.model_lineage_id;
  artifact_id = runtime.artifact_id;
  runtime_id = runtime.runtime_id;
  runtime_manifest_hash = hash;
  endpoint = runtime.endpoint;
  manifest_hash = first artifact.source_hashes;
  artifact_hash = artifact.artifact.artifact_hash;
  capabilities = request.required_capabilities;
}

module _ (p : Platform) where
  unfoldable pub validate_runtime_manifest : RuntimeManifest → Checked (Unit {0})
  validate_runtime_manifest manifest = do
    validate_schema_version manifest.schema_version
    validate_identifier manifest.runtime_id
    validate_identifier manifest.model_lineage_id
    validate_identifier manifest.artifact_id
    validate_timestamp p manifest.created_at
    reject_if
        (is_blank manifest.backend
          || is_blank manifest.backend_version
          || is_blank manifest.endpoint
          || not (is_absolute manifest.backend_executable)
          || eqb manifest.context_size 0
          || eqb manifest.pid 0
          || is_empty manifest.capabilities)
        (invalid_lifecycle_manifest "runtime manifest is incomplete")
    reject_if ((manifest.backend == "llama.cpp") && any observes manifest.capabilities) (
        runtime_capability_unsupported
          "llama.cpp does not expose arbitrary hidden states or eleven taps")

  unfoldable pub runtime_manifest_hash : RuntimeManifest → Checked Hash256
  runtime_manifest_hash manifest = do
    validate_runtime_manifest manifest
    payload ← ok_or (p.runtime_json.to_vec manifest) serialize
    ok (p.sha256 payload)

  -- The checks before the selection.
  unfoldable pub validate_request :
      ModelRequest → List ArtifactManifest → List RuntimeManifest → String → Checked (Unit {0})
  validate_request request artifacts runtimes lease_id = do
    validate_identifier request.model_lineage_id
    validate_identifier lease_id
    reject_if (is_blank request.purpose)
        (invalid_lifecycle_manifest "runtime request requires a purpose")
    reject_if (is_empty request.required_capabilities)
        (invalid_lifecycle_manifest "runtime request requires at least one capability")
    reject_if (is_empty request.representation_preference)
        (invalid_lifecycle_manifest "runtime request requires a representation preference")
    for_each (validate_artifact_manifest p) artifacts
    for_each validate_runtime_manifest runtimes

  unfoldable pub lease_for :
      ModelRequest → String → RuntimeManifest × ArtifactManifest → Checked ModelLease
  lease_for request lease_id (runtime, artifact) = do
    hash ← runtime_manifest_hash runtime
    validate_model_lease (lease_of request lease_id runtime artifact hash)
    ok (lease_of request lease_id runtime artifact hash)

  -- The requested capabilities that the error also prints are left out of its text.
  abbrev pub lease_first :
      ModelRequest → String → List (RuntimeManifest × ArtifactManifest) → Checked ModelLease
  lease_first request lease_id [] =
      err (runtime_capability_unsupported (String.◌++◌ "lineage " request.model_lineage_id))
  lease_first request lease_id (pair ∷ rest) = lease_for request lease_id pair

  unfoldable pub issue_model_lease :
      ModelRequest → List ArtifactManifest → List RuntimeManifest → String → Checked ModelLease
  issue_model_lease request artifacts runtimes lease_id = do
    validate_request request artifacts runtimes lease_id
    lease_first request lease_id (sort_by_id (eligible_pairs request artifacts runtimes))
