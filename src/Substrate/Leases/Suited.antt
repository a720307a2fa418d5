-- ===== src/Substrate/Leases/Suited.antt =====
-- What the second filter of `issue_model_lease` of crates/lmml-substrate/src/lifecycle.rs promises of
-- a runtime and its artifact, as equations between their records.
use lmml.Base.{
  String, ◌≡◌, ◌≢◌, sym, ◌∙◌, subst, true, none, some, List, [], ◌∷◌, arith, ◌==◌, eq_iff, inl, inr,
  Bool-cases, Option-cases, any, all, In, here, there, any-In, any-none, all-In, refl, Bool,
}
use lmml.Substrate.Types.{
  ModelRequest, RuntimeCapability, RuntimeManifest, ArtifactManifest, ModelLease, Hash256,
}
use lmml.Substrate.Checks.{representation_eq, quantization_eq, capability_eq}
use lmml.Substrate.Checks.Enums.{
  representation_eq-same, quantization_eq-same, capability_eq-same, representation_eq_refl,
  quantization_eq_refl, capability_eq_refl,
}
use lmml.Substrate.Leases.{is_eligible, artifact_of}

-- The runtime and the artifact are of the lineage that the request names, and agree on the bytes that
-- are served; the artifact was admitted, and the runtime has what the request asks for.
pub record Suits (request : ModelRequest) (runtime : RuntimeManifest) (artifact : ArtifactManifest)
    : Type 0 where
  pub named : artifact.artifact.artifact_id ≡ runtime.artifact_id
  pub lineage : runtime.model_lineage_id ≡ request.model_lineage_id
  pub artifact_lineage : artifact.artifact.model_lineage_id ≡ request.model_lineage_id
  pub hash : runtime.artifact_hash ≡ artifact.artifact.artifact_hash
  pub representation : runtime.representation ≡ artifact.artifact.representation
  pub quantization : runtime.quantization ≡ artifact.artifact.quantization
  pub admitted : artifact.admission ≢ none
  pub preferred : In runtime.representation request.representation_preference
  pub capable :
      (needed : RuntimeCapability)
      → In needed request.required_capabilities
      → In needed runtime.capabilities

pub artifact_of-In :
    (artifacts : List ArtifactManifest) (runtime : RuntimeManifest) (artifact : ArtifactManifest)
    → artifact_of artifacts runtime ≡ some artifact
    → In artifact artifacts × (artifact.artifact.artifact_id ≡ runtime.artifact_id)
artifact_of-In [] runtime artifact h = cc
artifact_of-In (a ∷ artifacts) runtime artifact h =
    elim (Bool-cases (a.artifact.artifact_id == runtime.artifact_id)) [
      | inl e ↦
          let same : artifact ≡ a = ground (arith, e, h) in
          (
            here same,
            subst (λ (x : ArtifactManifest). x.artifact.artifact_id ≡ runtime.artifact_id)
                (sym same) ((eq_iff a.artifact.artifact_id runtime.artifact_id).0 e),
          )
      | inr e ↦
          let (i, named) = artifact_of-In artifacts runtime artifact (ground (arith, e, h)) in
          (there i, named)
    ]

module _ {A : Type 0} (p : A → Bool) where
  any-true : (xs : List A) (x : A) → In x xs → p x ≡ true → any p xs ≡ true
  any-true xs x i h = elim (Bool-cases (any p xs)) [
    | inl e ↦ e
    | inr e ↦ ground (arith, any-none p xs e x i, h)
  ]

  all-true : (xs : List A) → ((x : A) → In x xs → p x ≡ true) → all p xs ≡ true
  all-true [] h = refl
  all-true (x ∷ xs) h = ground (arith, h x (here refl), all-true xs (λ y i. h y (there i)))

module _ (request : ModelRequest) (runtime : RuntimeManifest) (artifact : ArtifactManifest) where
  eligible_capable :
      is_eligible request runtime artifact ≡ true
      → (needed : RuntimeCapability) → In needed request.required_capabilities
      → In needed runtime.capabilities
  unfolding is_eligible
  eligible_capable h needed i =
      let has : any (λ c. capability_eq c needed) runtime.capabilities ≡ true =
        all-In (λ x. any (λ c. capability_eq c x) runtime.capabilities)
          request.required_capabilities (ground arith) needed i in
      let (found, j, e) = any-In (λ c. capability_eq c needed) runtime.capabilities has in
      subst (λ x. In x runtime.capabilities) (capability_eq-same found needed e) j

  eligible_preferred :
      is_eligible request runtime artifact ≡ true
      → In runtime.representation request.representation_preference
  unfolding is_eligible
  eligible_preferred h =
      let (found, i, e) =
        any-In (λ r. representation_eq r runtime.representation) request.representation_preference
          (ground arith) in
      subst (λ x. In x request.representation_preference) {x = found}
        (representation_eq-same found runtime.representation e) i

  pub is_eligible-Suits :
      is_eligible request runtime artifact ≡ true
      → artifact.artifact.artifact_id ≡ runtime.artifact_id
      → Suits request runtime artifact
  unfolding is_eligible
  is_eligible-Suits h named =
      let same = (eq_iff runtime.model_lineage_id request.model_lineage_id).0 (ground arith) in
      let bound =
        (eq_iff runtime.model_lineage_id artifact.artifact.model_lineage_id).0 (ground arith) in
      record {
        named = named;
        lineage = same;
        artifact_lineage = sym bound ∙ same;
        hash = (eq_iff runtime.artifact_hash artifact.artifact.artifact_hash).0 (ground arith);
        representation = representation_eq-same _ _ (ground arith);
        quantization = quantization_eq-same _ _ (ground arith);
        admitted = λ e. ground (arith, e, h);
        preferred = eligible_preferred h;
        capable = eligible_capable h;
      }

  Suits-capable :
      Suits request runtime artifact
      → all
          (λ needed. any (λ c. capability_eq c needed) runtime.capabilities)
          request.required_capabilities
        ≡ true
  Suits-capable s =
      all-true (λ needed. any (λ c. capability_eq c needed) runtime.capabilities)
        request.required_capabilities
        (λ needed i.
          any-true (λ c. capability_eq c needed) runtime.capabilities needed (s.capable needed i)
            (capability_eq_refl needed))

  pub Suits-is_eligible :
      Suits request runtime artifact → is_eligible request runtime artifact ≡ true
  unfolding is_eligible
  Suits-is_eligible s =
      let lineage = (eq_iff runtime.model_lineage_id request.model_lineage_id).1 s.lineage in
      let bound =
        (eq_iff runtime.model_lineage_id artifact.artifact.model_lineage_id).1
          (s.lineage ∙ sym s.artifact_lineage) in
      let hash = (eq_iff runtime.artifact_hash artifact.artifact.artifact_hash).1 s.hash in
      let representation =
        subst (λ r. representation_eq runtime.representation r ≡ true) s.representation
          (representation_eq_refl runtime.representation) in
      let quantization =
        subst (λ q. quantization_eq runtime.quantization q ≡ true) s.quantization
          (quantization_eq_refl runtime.quantization) in
      let preferred =
        any-true (λ r. representation_eq r runtime.representation) request.representation_preference
          runtime.representation s.preferred (representation_eq_refl runtime.representation) in
      elim (Option-cases artifact.admission) [
        | inl e ↦ absurd (s.admitted e)
        | inr (admission, e) ↦ ground (
          arith,
          e,
          lineage,
          bound,
          hash,
          representation,
          quantization,
          preferred,
          Suits-capable s,
        )
      ]

-- A runtime of the list, the artifact of the list that has the identifier it is bound to, and that the
-- two suit the request.
pub record IsMatch (request : ModelRequest) (artifacts : List ArtifactManifest)
    (runtimes : List RuntimeManifest) (runtime : RuntimeManifest) (artifact : ArtifactManifest)
    : Type 0 where
  pub listed : In runtime runtimes
  pub bound : artifact_of artifacts runtime ≡ some artifact
  pub artifact_listed : In artifact artifacts
  pub suits : Suits request runtime artifact

-- What the lease says of its runtime, its artifact and the request.
pub record IsLeaseOf (request : ModelRequest) (asked_id : String) (runtime : RuntimeManifest)
    (artifact : ArtifactManifest) (lease : ModelLease) : Type 0 where
  pub lease_id : lease.lease_id ≡ asked_id
  pub model_lineage_id : lease.model_lineage_id ≡ runtime.model_lineage_id
  pub runtime_id : lease.runtime_id ≡ runtime.runtime_id
  pub endpoint : lease.endpoint ≡ runtime.endpoint
  pub artifact_id : lease.artifact_id ≡ artifact.artifact.artifact_id
  pub artifact_hash : lease.artifact_hash ≡ runtime.artifact_hash
  pub output_hash : lease.artifact_hash ≡ artifact.output_hash
  pub manifest_hash : (rest : List Hash256) × (artifact.source_hashes ≡ lease.manifest_hash ∷ rest)
  pub capabilities : lease.capabilities ≡ request.required_capabilities
