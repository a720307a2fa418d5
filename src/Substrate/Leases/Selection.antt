-- ===== src/Substrate/Leases/Selection.antt =====
-- The selection of a runtime: `issue_model_lease` of crates/lmml-substrate/src/lifecycle.rs.
use lmml.Base.{
  List-cases, subst, ap, true, false, ◌≡◌, ◌≢◌, refl, arith, some, none, sym, ◌∙◌, inl, inr, Option,
  List, [], ◌∷◌, In, here, there, Bool-cases, ◌⊎◌, if◌then◌else◌,
}
use lmml.Base.Text.{text_lt}
use lmml.Substrate.Types.{ModelRequest, RuntimeManifest, ArtifactManifest}
use lmml.Substrate.Canonical.Order.{text_le_trans, text_lt_asym}
use lmml.Substrate.Leases.{
  keep_eligible, is_eligible, artifact_of, eligible_pairs, insert_by_id, sort_by_id,
}

abbrev pub Pair : Type 0
Pair = RuntimeManifest × ArtifactManifest

-- A runtime of the request's list with its artifact, which suit the request.
pub record IsCandidate (request : ModelRequest) (artifacts : List ArtifactManifest)
    (runtimes : List RuntimeManifest) (pair : Pair) : Type 0 where
  pub listed : In pair.0 runtimes
  pub found : artifact_of artifacts pair.0 ≡ some pair.1
  pub eligible : is_eligible request pair.0 pair.1 ≡ true

module _ (request : ModelRequest) (artifacts : List ArtifactManifest) where
  later :
      (r : RuntimeManifest) (runtimes : List RuntimeManifest) (pair : Pair)
      → IsCandidate request artifacts runtimes pair
      → IsCandidate request artifacts (r ∷ runtimes) pair
  later r runtimes pair c = record {
    listed = there c.listed;
    found = c.found;
    eligible = c.eligible;
  }

  keep-In :
      (r : RuntimeManifest) (o : Option ArtifactManifest) (rest : List Pair) (pair : Pair)
      → In pair (keep_eligible request r o rest)
      → ((pair.0 ≡ r) × (o ≡ some pair.1) × (is_eligible request pair.0 pair.1 ≡ true))
        ⊎ In pair rest
  keep-In r none rest pair i = inr i
  keep-In r (some a) rest pair i = elim (Bool-cases (is_eligible request r a)) [
    | inl e ↦ split e (subst (λ b. In pair (if b then (r, a) ∷ rest else rest)) e i)
    | inr e ↦ inr (subst (λ b. In pair (if b then (r, a) ∷ rest else rest)) e i)
  ]
    where
      split :
          is_eligible request r a ≡ true
          → In pair ((r, a) ∷ rest)
          → ((pair.0 ≡ r) × (some a ≡ some pair.1) × (is_eligible request pair.0 pair.1 ≡ true))
            ⊎ In pair rest
      split e (here same) = inl (
        ap (λ (x : Pair). x.0) same,
        ap (λ (x : Pair). some x.1) (sym same),
        subst (λ (x : Pair). is_eligible request x.0 x.1 ≡ true) (sym same) e,
      )
      split e (there j) = inr j

  In-keep :
      (r : RuntimeManifest) (o : Option ArtifactManifest) (rest : List Pair) (pair : Pair)
      → In pair rest
      → In pair (keep_eligible request r o rest)
  In-keep r none rest pair i = i
  In-keep r (some a) rest pair i = elim (Bool-cases (is_eligible request r a)) [
    | inl e ↦ rw e (there i)
    | inr e ↦ rw e i
  ]

  pub eligible_pairs-IsCandidate :
      (runtimes : List RuntimeManifest) (pair : Pair)
      → In pair (eligible_pairs request artifacts runtimes)
      → IsCandidate request artifacts runtimes pair
  unfolding eligible_pairs
  eligible_pairs-IsCandidate [] pair i = elim i [ ]
  eligible_pairs-IsCandidate (r ∷ runtimes) pair i =
      elim (keep-In r (artifact_of artifacts r) (eligible_pairs request artifacts runtimes) pair
        i) [
          | inl (same, chosen, suits) ↦ record {
            listed = here same;
            found = ap (artifact_of artifacts) same ∙ chosen;
            eligible = suits;
          }
          | inr j ↦ later r runtimes pair (eligible_pairs-IsCandidate runtimes pair j)
        ]

  pub IsCandidate-eligible_pairs :
      (runtimes : List RuntimeManifest) (pair : Pair)
      → IsCandidate request artifacts runtimes pair
      → In pair (eligible_pairs request artifacts runtimes)
  unfolding eligible_pairs
  IsCandidate-eligible_pairs [] pair c = elim c.listed [ ]
  IsCandidate-eligible_pairs (r ∷ runtimes) pair c = choose c.listed c.found c.eligible (λ i.
      IsCandidate-eligible_pairs runtimes pair
        (record { listed = i; found = c.found; eligible = c.eligible }))
    where
      choose :
          In pair.0 (r ∷ runtimes)
          → artifact_of artifacts pair.0 ≡ some pair.1
          → is_eligible request pair.0 pair.1 ≡ true
          → (In pair.0 runtimes → In pair (eligible_pairs request artifacts runtimes))
          → In pair (
              keep_eligible request r
                (artifact_of artifacts r)
                (eligible_pairs request artifacts runtimes))
      choose (here same) chosen suits rest = rw (sym same) (rw chosen (rw suits (here refl)))
      choose (there i) chosen suits rest =
          In-keep r (artifact_of artifacts r) (eligible_pairs request artifacts runtimes) pair
            (rest i)

-- The order of the sort: `first` does not come after `second`.
abbrev pub Precedes : Pair → Pair → Type 0
Precedes first second = text_lt second.0.runtime_id first.0.runtime_id ≡ false

insert_by_id-filled : (pair : Pair) (pairs : List Pair) → insert_by_id pair pairs ≢ []
unfolding insert_by_id
insert_by_id-filled pair [] h = cc
insert_by_id-filled pair (next ∷ rest) h = ground (arith, h)

pub sort_by_id-empty : (pairs : List Pair) → sort_by_id pairs ≡ [] → pairs ≡ []
unfolding sort_by_id
sort_by_id-empty [] h = refl
sort_by_id-empty (pair ∷ pairs) h = absurd (insert_by_id-filled pair (sort_by_id pairs) h)

-- The first pair of the sorted list is one of the list, and it precedes all of them.
abbrev pub IsFirst : Pair → List Pair → Type 0
IsFirst first pairs = In first pairs × ((x : Pair) → In x pairs → Precedes first x)

IsFirst-alone : (pair : Pair) → IsFirst pair (pair ∷ [])
IsFirst-alone pair = (here refl, λ x i. only x i)
  where
    only : (x : Pair) → In x (pair ∷ []) → Precedes pair x
    only x (here e) = rw e (ground (arith, text_lt_asym pair.0.runtime_id pair.0.runtime_id))
    only x (there i) = elim i [ ]

IsFirst-new :
    (pair next : Pair) (pairs : List Pair)
    → IsFirst next pairs
    → Precedes pair next
    → IsFirst pair (pair ∷ pairs)
IsFirst-new pair next pairs (i, before) e = (here refl, λ x j. below x j)
  where
    below : (x : Pair) → In x (pair ∷ pairs) → Precedes pair x
    below x (here same) = rw same (ground (arith, text_lt_asym pair.0.runtime_id pair.0.runtime_id))
    below x (there j) =
        text_le_trans pair.0.runtime_id next.0.runtime_id x.0.runtime_id e (before x j)

IsFirst-kept :
    (pair next : Pair) (pairs : List Pair)
    → IsFirst next pairs
    → text_lt next.0.runtime_id pair.0.runtime_id ≡ true
    → IsFirst next (pair ∷ pairs)
IsFirst-kept pair next pairs (i, before) e = (there i, λ x j. below x j)
  where
    below : (x : Pair) → In x (pair ∷ pairs) → Precedes next x
    below x (here same) = rw same (text_lt_asym next.0.runtime_id pair.0.runtime_id e)
    below x (there j) = before x j

pub sort_by_id-IsFirst :
    (pairs : List Pair) (first : Pair) (rest : List Pair)
    → sort_by_id pairs ≡ first ∷ rest
    → IsFirst first pairs
unfolding sort_by_id insert_by_id
sort_by_id-IsFirst [] first rest h = cc
sort_by_id-IsFirst (pair ∷ pairs) first rest h = elim (List-cases (sort_by_id pairs)) [
  | inl e ↦
      let only : pair ≡ first = ground (arith, e, h) in
      rw (sort_by_id-empty pairs e) (subst (λ x. IsFirst x (pair ∷ [])) only (IsFirst-alone pair))
  | inr (next, others, e) ↦
      let before = sort_by_id-IsFirst pairs next others e in
      elim (Bool-cases (text_lt next.0.runtime_id pair.0.runtime_id)) [
        | inl earlier ↦
            let same : next ≡ first = ground (arith, e, h, earlier) in
            subst (λ x. IsFirst x (pair ∷ pairs)) same (IsFirst-kept pair next pairs before earlier)
        | inr later ↦
            let same : pair ≡ first = ground (arith, e, h, later) in
            subst (λ x. IsFirst x (pair ∷ pairs)) same (IsFirst-new pair next pairs before later)
      ]
]
