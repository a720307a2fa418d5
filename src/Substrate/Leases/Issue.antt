-- ===== src/Substrate/Leases/Issue.antt =====
-- When `issue_model_lease` of crates/lmml-substrate/src/lifecycle.rs issues a lease, and for which
-- runtime.
use Prim.Native.String
use lmml.Base.{
  subst, List-cases, String, false, ◌≡◌, ◌≢◌, arith, ok, err, none, inl, inr, Option-cases, List,
  [], In, is_empty, for_each-In,
}
use lmml.Substrate.Types.{ModelRequest, ModelLease, RuntimeManifest, ArtifactManifest, Hash256}
use lmml.Substrate.Errors.{runtime_capability_unsupported}
use lmml.Substrate.Platform.{Platform}
use lmml.Base.Text.{is_blank}
use lmml.Substrate.Identifiers.{validate_identifier}
use lmml.Substrate.Leases.{
  eligible_pairs, sort_by_id, lease_of, validate_request, validate_runtime_manifest,
  validate_model_lease, runtime_manifest_hash, lease_for, issue_model_lease, first,
}
use lmml.Substrate.Leases.Selection.{
  Pair, IsCandidate, eligible_pairs-IsCandidate, IsCandidate-eligible_pairs, sort_by_id-IsFirst,
  sort_by_id-empty,
}

module _ (p : Platform) (request : ModelRequest) (artifacts : List ArtifactManifest)
    (runtimes : List RuntimeManifest) (lease_id : String) where
  abbrev IsSuitable : Pair → Type 0
  IsSuitable = IsCandidate request artifacts runtimes

  abbrev pairs : List Pair
  pairs = eligible_pairs request artifacts runtimes

  -- Where the request and the records are valid and no runtime suits the request, the answer is that
  -- the capability is not supported.
  pub issue_model_lease-none :
      validate_request p request artifacts runtimes lease_id ≡ ok tt
      → ((pair : RuntimeManifest × ArtifactManifest)
          → IsCandidate request artifacts runtimes pair
          → ⊥)
      → issue_model_lease p request artifacts runtimes lease_id
        ≡ err (runtime_capability_unsupported (String.◌++◌ "lineage " request.model_lineage_id))
  unfolding issue_model_lease
  issue_model_lease-none valid nobody = elim (List-cases (sort_by_id pairs)) [
    | inl e ↦ ground (arith, e, valid)
    | inr (pair, rest, e) ↦ absurd (
        nobody pair (
          eligible_pairs-IsCandidate request artifacts runtimes pair
            (sort_by_id-IsFirst pairs pair rest e).0))
  ]

  listed-valid :
      (r : RuntimeManifest)
      → validate_request p request artifacts runtimes lease_id ≡ ok tt
      → In r runtimes
      → validate_runtime_manifest p r ≡ ok tt
  unfolding validate_request
  listed-valid r valid i =
      for_each-In (validate_runtime_manifest p) runtimes (ground (arith, valid)) r i

  runtime-fields :
      (r : RuntimeManifest)
      → validate_runtime_manifest p r ≡ ok tt
      → (validate_identifier r.runtime_id ≡ ok tt)
        × (validate_identifier r.artifact_id ≡ ok tt)
        × (is_blank r.endpoint ≡ false)
  unfolding validate_runtime_manifest
  runtime-fields r h = ground arith

  request-fields :
      validate_request p request artifacts runtimes lease_id ≡ ok tt
      → (validate_identifier lease_id ≡ ok tt)
        × (validate_identifier request.model_lineage_id ≡ ok tt)
        × (is_empty request.required_capabilities ≡ false)
  unfolding validate_request
  request-fields h = ground arith

  -- A lease of a runtime of the list is valid, since the request and the runtimes are.
  lease_of-valid :
      (pair : Pair) (hash : Hash256)
      → validate_request p request artifacts runtimes lease_id ≡ ok tt
      → In pair.0 runtimes
      → validate_model_lease (lease_of request lease_id pair.0 pair.1 hash) ≡ ok tt
  unfolding validate_model_lease
  lease_of-valid pair hash valid i =
      let (a, b, c) = runtime-fields pair.0 (listed-valid pair.0 valid i) in
      let (d, e, f) = request-fields valid in ground (arith, a, b, c, d, e, f)

  lease_for-total :
      (pair : Pair)
      → validate_request p request artifacts runtimes lease_id ≡ ok tt
      → ((r : RuntimeManifest) → p.runtime_json.to_vec r ≢ none)
      → In pair.0 runtimes
      → (lease : ModelLease) × (lease_for p request lease_id pair ≡ ok lease)
  unfolding lease_for runtime_manifest_hash
  lease_for-total (runtime, artifact) valid written i =
      elim (Option-cases (p.runtime_json.to_vec runtime)) [
        | inl e ↦ absurd (written runtime e)
        | inr (bytes, e) ↦
            let hash = p.sha256 bytes in
            (
              lease_of request lease_id runtime artifact hash,
              ground (
                arith,
                e,
                listed-valid runtime valid i,
                lease_of-valid (runtime, artifact) hash valid i,
              ),
            )
      ]

  -- Where the request and the records are valid, the runtimes' records can be written as JSON, and
  -- some runtime suits the request, a lease is issued.
  pub issue_model_lease-total :
      validate_request p request artifacts runtimes lease_id ≡ ok tt
      → ((r : RuntimeManifest) → p.runtime_json.to_vec r ≢ none)
      → (pair : RuntimeManifest × ArtifactManifest) → IsCandidate request artifacts runtimes pair
      → (lease : ModelLease) × (issue_model_lease p request artifacts runtimes lease_id ≡ ok lease)
  unfolding issue_model_lease
  issue_model_lease-total valid written pair c = elim (List-cases (sort_by_id pairs)) [
    | inl e ↦ absurd (
        some_pair pair (
          subst (In pair) (sort_by_id-empty pairs e)
            (IsCandidate-eligible_pairs request artifacts runtimes pair c)))
    | inr (first, rest, e) ↦
        let d =
          eligible_pairs-IsCandidate request artifacts runtimes first
            (sort_by_id-IsFirst pairs first rest e).0 in
        let (lease, f) = lease_for-total first valid written d.listed in
        (lease, ground (arith, e, f, valid))
  ]
    where
      some_pair : (x : Pair) → In x [] → ⊥
      some_pair x i = elim i [ ]
