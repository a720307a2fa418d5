-- ===== src/Substrate/Leases/Terms.antt =====
-- What a lease that `issue_model_lease` of crates/lmml-substrate/src/lifecycle.rs makes says of its
-- runtime and its artifact, and which of those suit a request.
use lmml.Base.{
  refl, ◌∷◌, eq_iff, String, false, ◌≡◌, arith, ok, sym, List, [], In, is_empty, for_each-In,
}
use lmml.Substrate.Types.{ModelRequest, RuntimeManifest, ArtifactManifest, Hash256}
use lmml.Substrate.Platform.{Platform}
use lmml.Substrate.Artifacts.{validate_artifact_manifest}
use lmml.Substrate.Leases.Suited.{
  is_eligible-Suits, Suits-is_eligible, artifact_of-In, IsMatch, IsLeaseOf,
}
use lmml.Substrate.Leases.{lease_of, validate_request, first}
use lmml.Substrate.Leases.Selection.{Pair, IsCandidate}

module _ (p : Platform) (request : ModelRequest) (artifacts : List ArtifactManifest)
    (runtimes : List RuntimeManifest) (lease_id : String) where
  pub IsCandidate-IsMatch :
      (pair : Pair)
      → IsCandidate request artifacts runtimes pair
      → IsMatch request artifacts runtimes pair.0 pair.1
  IsCandidate-IsMatch (runtime, artifact) c =
      let (i, named) = artifact_of-In artifacts runtime artifact c.found in
      record {
        listed = c.listed;
        bound = c.found;
        artifact_listed = i;
        suits = is_eligible-Suits request runtime artifact c.eligible named;
      }

  pub IsMatch-IsCandidate :
      (runtime : RuntimeManifest) (artifact : ArtifactManifest)
      → IsMatch request artifacts runtimes runtime artifact
      → IsCandidate request artifacts runtimes (runtime, artifact)
  IsMatch-IsCandidate runtime artifact m = record {
    listed = m.listed;
    found = m.bound;
    eligible = Suits-is_eligible request runtime artifact m.suits;
  }

  artifact-fields :
      (artifact : ArtifactManifest)
      → validate_request p request artifacts runtimes lease_id ≡ ok tt
      → In artifact artifacts
      → (artifact.output_hash ≡ artifact.artifact.artifact_hash)
        × (is_empty artifact.source_hashes ≡ false)
  unfolding validate_request validate_artifact_manifest
  artifact-fields artifact valid i =
      let checked =
        for_each-In (validate_artifact_manifest p) artifacts (ground (arith, valid)) artifact i in
      (
        (eq_iff artifact.output_hash artifact.artifact.artifact_hash).0 (ground (arith, checked)),
        ground (arith, checked),
      )

  first_of :
      (hashes : List Hash256)
      → is_empty hashes ≡ false
      → (rest : List Hash256) × (hashes ≡ first hashes ∷ rest)
  first_of [] h = cc
  first_of (hash ∷ rest) h = (rest, refl)

  pub lease_of-IsLeaseOf :
      (runtime : RuntimeManifest) (artifact : ArtifactManifest) (hash : Hash256)
      → validate_request p request artifacts runtimes lease_id ≡ ok tt
      → IsMatch request artifacts runtimes runtime artifact
      → IsLeaseOf request lease_id runtime artifact
          (lease_of request lease_id runtime artifact hash)
  lease_of-IsLeaseOf runtime artifact hash valid m =
      let (output, filled) = artifact-fields artifact valid m.artifact_listed in
      record {
        lease_id = refl;
        model_lineage_id = sym m.suits.lineage;
        runtime_id = refl;
        endpoint = refl;
        artifact_id = sym m.suits.named;
        artifact_hash = sym m.suits.hash;
        output_hash = sym output;
        manifest_hash = first_of artifact.source_hashes filled;
        capabilities = refl;
      }
