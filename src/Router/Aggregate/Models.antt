-- ===== src/Router/Aggregate/Models.antt =====
-- Which models `aggregate_models` of crates/lmml-router/src/lib.rs lists.
use lmml.Base.{
  String, ◌≡◌, refl, sym, ap, subst, ◌≢◌, ◌⊎◌, inl, inr, true, false, Option, none, some, List, [],
  ◌∷◌, ◌++◌, arith, ◌==◌, eq_iff, if◌then◌else◌, Bool-cases, In, here, there, Pairwise, In-append,
  append_left, append_right,
}
use lmml.Base.Text.{mem_text}
use lmml.Api.{ModelDescriptor, NodeCapabilities}
use lmml.Router.Types.{UpstreamProbe}
use lmml.Router.Selection.{is_ready}
use lmml.Router.Aggregate.{models_of, ready_models, first_of_each, aggregate_models}

-- A model of a ready probe.
abbrev pub IsServed : (enforcement : Option String) → List UpstreamProbe → ModelDescriptor → Type 0
IsServed enforcement probes model =
    (probe : UpstreamProbe) × (capabilities : NodeCapabilities) × In probe probes
    × (is_ready enforcement probe ≡ true)
    × (probe.capabilities ≡ some capabilities)
    × In model capabilities.models

-- `chosen` holds one model for each identifier of `models` that is not among `model_ids`.
record IsOneOfEach (model_ids : List String) (models chosen : List ModelDescriptor) : Type 0 where
  apart : Pairwise (λ (a b : ModelDescriptor). a.id ≢ b.id) chosen
  listed : (m : ModelDescriptor) → In m chosen → In m models × (mem_text m.id model_ids ≡ false)
  covered :
      (m : ModelDescriptor)
      → In m models
      → (mem_text m.id model_ids ≡ true) ⊎ ((n : ModelDescriptor) × In n chosen × (n.id ≡ m.id))

IsOneOfEach-skip :
    (model_ids : List String) (model : ModelDescriptor) (models chosen : List ModelDescriptor)
    → mem_text model.id model_ids ≡ true
    → IsOneOfEach model_ids models chosen
    → IsOneOfEach model_ids (model ∷ models) chosen
IsOneOfEach-skip model_ids model models chosen e c = record {
  apart = c.apart;
  listed = λ m i. let (j, f) = c.listed m i in (there j, f);
  covered = λ m i. cover m i;
}
  where
    cover :
        (m : ModelDescriptor)
        → In m (model ∷ models)
        → (mem_text m.id model_ids ≡ true) ⊎ ((n : ModelDescriptor) × In n chosen × (n.id ≡ m.id))
    cover m (here same) = inl (rw same e)
    cover m (there i) = c.covered m i

IsOneOfEach-take :
    (model_ids : List String) (model : ModelDescriptor) (models chosen : List ModelDescriptor)
    → mem_text model.id model_ids ≡ false
    → IsOneOfEach (model.id ∷ model_ids) models chosen
    → IsOneOfEach model_ids (model ∷ models) (model ∷ chosen)
IsOneOfEach-take model_ids model models chosen e c = record {
  apart = (
    (λ m i same.
        let f = (c.listed m i).1 in
        let g = (eq_iff m.id model.id).1 (sym same) in ground (arith, f, g)),
    c.apart,
  );
  listed = λ m i. list m i;
  covered = λ m i. cover m i;
}
  where
    list :
        (m : ModelDescriptor)
        → In m (model ∷ chosen)
        → In m (model ∷ models) × (mem_text m.id model_ids ≡ false)
    list m (here same) = (here same, rw same e)
    list m (there i) = let (j, f) = c.listed m i in (there j, ground (arith, f))

    split :
        (m : ModelDescriptor)
        → (mem_text m.id (model.id ∷ model_ids) ≡ true)
          ⊎ ((n : ModelDescriptor) × In n chosen × (n.id ≡ m.id))
        → (mem_text m.id model_ids ≡ true)
          ⊎ ((n : ModelDescriptor) × In n (model ∷ chosen) × (n.id ≡ m.id))
    split m (inr (n, i, f)) = inr (n, there i, f)
    split m (inl f) = elim (Bool-cases (m.id == model.id)) [
      | inl g ↦ inr (model, here refl, sym ((eq_iff m.id model.id).0 g))
      | inr g ↦ inl (ground (arith, f, g))
    ]

    cover :
        (m : ModelDescriptor)
        → In m (model ∷ models)
        → (mem_text m.id model_ids ≡ true)
          ⊎ ((n : ModelDescriptor) × In n (model ∷ chosen) × (n.id ≡ m.id))
    cover m (here same) = inr (model, here refl, ap (λ (x : ModelDescriptor). x.id) (sym same))
    cover m (there i) = split m (c.covered m i)

first_of_each-IsOneOfEach :
    (model_ids : List String) (models : List ModelDescriptor)
    → IsOneOfEach model_ids models (first_of_each model_ids models)
unfolding first_of_each
first_of_each-IsOneOfEach model_ids [] = record {
  apart = tt;
  listed = λ m i. elim i [ ];
  covered = λ m i. elim i [ ];
}
first_of_each-IsOneOfEach model_ids (model ∷ models) =
    elim (Bool-cases (mem_text model.id model_ids)) [
      | inl e ↦
          rw (first_of_each, e)
            (IsOneOfEach-skip model_ids model models (first_of_each model_ids models) e
              (first_of_each-IsOneOfEach model_ids models))
      | inr e ↦
          rw (first_of_each, e)
            (IsOneOfEach-take model_ids model models (first_of_each (model.id ∷ model_ids) models) e
              (first_of_each-IsOneOfEach (model.id ∷ model_ids) models))
    ]

ready_models-IsServed :
    (enforcement : Option String) (probes : List UpstreamProbe) (m : ModelDescriptor)
    → In m (ready_models enforcement probes)
    → IsServed enforcement probes m
unfolding ready_models
ready_models-IsServed enforcement [] m i = elim i [ ]
ready_models-IsServed enforcement (probe ∷ probes) m i =
    elim (Bool-cases (is_ready enforcement probe)) [
      | inl e ↦
          elim (In-append (models_of probe.capabilities) rest m
            (subst (λ b. In m (if b then models_of probe.capabilities ++ rest else rest)) e i)) [
              | inl j ↦ own e probe.capabilities refl j
              | inr j ↦ later (ready_models-IsServed enforcement probes m j)
            ]
      | inr e ↦ later (
          ready_models-IsServed enforcement probes m
            (subst (λ b. In m (if b then models_of probe.capabilities ++ rest else rest)) e i))
    ]
  where
    rest : List ModelDescriptor
    rest = ready_models enforcement probes

    own :
        is_ready enforcement probe ≡ true
        → (o : Option NodeCapabilities) → probe.capabilities ≡ o
        → In m (models_of o)
        → IsServed enforcement (probe ∷ probes) m
    own e none f j = elim j [ ]
    own e (some c) f j = (probe, c, here refl, e, f, j)

    later : IsServed enforcement probes m → IsServed enforcement (probe ∷ probes) m
    later (p, c, k, e, f, j) = (p, c, there k, e, f, j)

IsServed-ready_models :
    (enforcement : Option String) (probes : List UpstreamProbe) (m : ModelDescriptor)
    → IsServed enforcement probes m
    → In m (ready_models enforcement probes)
unfolding ready_models
IsServed-ready_models enforcement [] m (p, c, i, e, f, j) = elim i [ ]
IsServed-ready_models enforcement (probe ∷ probes) m (p, c, i, e, f, j) =
    by_place i (λ k. IsServed-ready_models enforcement probes m (p, c, k, e, f, j))
  where
    rest : List ModelDescriptor
    rest = ready_models enforcement probes

    by_place :
        In p (probe ∷ probes)
        → (In p probes → In m rest)
        → In m (if is_ready enforcement probe then models_of probe.capabilities ++ rest else rest)
    by_place (here same) next =
        let ready_now : is_ready enforcement probe ≡ true =
          subst (λ q. is_ready enforcement q ≡ true) same e in
        let its : probe.capabilities ≡ some c =
          subst (λ (q : UpstreamProbe). q.capabilities ≡ some c) same f in
        rw ready_now (
          append_left (models_of probe.capabilities) rest m
            (subst (λ o. In m (models_of o)) (sym its) j))
    by_place (there k) next = elim (Bool-cases (is_ready enforcement probe)) [
      | inl g ↦ rw g (append_right (models_of probe.capabilities) rest m (next k))
      | inr g ↦ rw g (next k)
    ]

-- The models of the router are models of ready upstreams, no two with one identifier, and every
-- identifier of a model of a ready upstream is among theirs.
pub aggregate_models-IsOneOfEach :
    (enforcement : Option String) (probes : List UpstreamProbe)
    → Pairwise (λ (a b : ModelDescriptor). a.id ≢ b.id) (aggregate_models enforcement probes)
      × ((m : ModelDescriptor)
          → In m (aggregate_models enforcement probes)
          → IsServed enforcement probes m)
      × ((m : ModelDescriptor)
          → IsServed enforcement probes m
          → (n : ModelDescriptor) × In n (aggregate_models enforcement probes) × (n.id ≡ m.id))
unfolding aggregate_models
aggregate_models-IsOneOfEach enforcement probes =
    let c = first_of_each-IsOneOfEach [] (ready_models enforcement probes) in
    (
      c.apart,
      (λ m i. ready_models-IsServed enforcement probes m (c.listed m i).0),
      (λ m served. elim (c.covered m (IsServed-ready_models enforcement probes m served)) [
        | inl e ↦ absurd (ground (arith, e))
        | inr found ↦ found
      ]),
    )
