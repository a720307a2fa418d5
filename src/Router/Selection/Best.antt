-- ===== src/Router/Selection/Best.antt =====
-- Which upstream `select_upstream` of crates/lmml-router/src/lib.rs chooses.
use lmml.Base.{
  ℕ, ◌≤◌, ◌<◌, String, ◌≡◌, refl, subst, ◌↔◌, inl, inr, true, false, Option, none, some, List, [],
  ◌∷◌, arith, leb, Bool-cases, Option-cases, retain, In, here, there, retain-In, In-retain, ok, err,
}
use lmml.Router.Types.{UpstreamNodeConfig, RouterCounters, UpstreamProbe, ApiFailure}
use lmml.Router.Selection.{is_routable, min_by_key, load_key, no_routable_upstream, select_upstream}

module _ {A : Type 0} where
  -- `x` stands in the list, those before it have a larger key, and those after it no smaller one.
  pub data IsFirstMin (key : A → ℕ) (x : A) : List A → Type 0 where
    at_head : {xs : List A} → ((y : A) → In y xs → key x ≤ key y) → IsFirstMin key x (x ∷ xs)
    in_tail :
        {y : A} {xs : List A} → key x < key y → IsFirstMin key x xs → IsFirstMin key x (y ∷ xs)

  IsFirstMin-In : (key : A → ℕ) (x : A) (xs : List A) → IsFirstMin key x xs → In x xs
  IsFirstMin-In key x [] i = elim i [ ]
  IsFirstMin-In key x (y ∷ xs) (at_head least) = here refl
  IsFirstMin-In key x (y ∷ xs) (in_tail less rest) = there (IsFirstMin-In key x xs rest)

  IsFirstMin-least :
      (key : A → ℕ) (x : A) (xs : List A) → IsFirstMin key x xs → (y : A) → In y xs → key x ≤ key y
  IsFirstMin-least key x [] m y i = elim m [ ]
  IsFirstMin-least key x (z ∷ xs) (at_head least) y (here same) = rw same (omega arith)
  IsFirstMin-least key x (z ∷ xs) (at_head least) y (there i) = least y i
  IsFirstMin-least key x (z ∷ xs) (in_tail less rest) y (here same) = rw same (omega arith)
  IsFirstMin-least key x (z ∷ xs) (in_tail less rest) y (there i) =
      IsFirstMin-least key x xs rest y i

  min_by_key-none : (key : A → ℕ) (xs : List A) → min_by_key key xs ≡ none → xs ≡ []
  unfolding min_by_key
  min_by_key-none key [] h = refl
  min_by_key-none key (x ∷ xs) h = absurd (elim (Option-cases (min_by_key key xs)) [
    | inl e ↦ ground (arith, e, h)
    | inr (y, e) ↦ ground (arith, e, h)
  ])

  -- `min_by_key` answers with the first of the elements with the smallest key.
  pub min_by_key-IsFirstMin :
      (key : A → ℕ) (xs : List A) (x : A) → min_by_key key xs ≡ some x → IsFirstMin key x xs
  unfolding min_by_key
  min_by_key-IsFirstMin key [] x h = cc
  min_by_key-IsFirstMin key (y ∷ xs) x h = elim (Option-cases (min_by_key key xs)) [
    | inl e ↦
        let only : y ≡ x = ground (arith, e, h) in
        rw (min_by_key-none key xs e)
          (subst (λ z. IsFirstMin key z (y ∷ [])) only (at_head λ z i. elim i [ ]))
    | inr (z, e) ↦
        let rest = min_by_key-IsFirstMin key xs z e in
        elim (Bool-cases (leb (key y) (key z))) [
          | inl f ↦
              let same : y ≡ x = ground (arith, e, h, f) in
              subst (λ z. IsFirstMin key z (y ∷ xs)) same
                (at_head
                  λ w i. let bound = IsFirstMin-least key z xs rest w i in ground (arith, f, bound))
          | inr f ↦
              let same : z ≡ x = ground (arith, e, h, f) in
              subst (λ z. IsFirstMin key z (y ∷ xs)) same (in_tail (ground (arith, f)) rest)
        ]
  ]

module _ (lowercase : String → String) (enforcement : Option String) (counters : RouterCounters)
    (path : String) (model request_id : Option String) (probes : List UpstreamProbe) where
  abbrev eligible : List UpstreamProbe
  eligible = retain (is_routable lowercase enforcement path model) probes

  -- The upstream that is chosen is that of a probe that is ready and supports the route and the
  -- model, and no such probe has a smaller load; among those of the smallest load it is the first.
  pub select_upstream-IsBest :
      (config : UpstreamNodeConfig)
      → select_upstream lowercase enforcement counters path model request_id probes ≡ ok config
      → (probe : UpstreamProbe) × (probe.config ≡ config)
        × In probe probes
        × (is_routable lowercase enforcement path model probe ≡ true)
        × ((other : UpstreamProbe)
            → In other probes
            → is_routable lowercase enforcement path model other ≡ true
            → load_key counters probe ≤ load_key counters other)
        × IsFirstMin
            (load_key counters)
            probe
            (retain (is_routable lowercase enforcement path model) probes)
  unfolding select_upstream
  select_upstream-IsBest config h = elim (Option-cases (min_by_key (load_key counters) eligible)) [
    | inl e ↦ absurd (ground (arith, e, h))
    | inr (probe, e) ↦
        let first = min_by_key-IsFirstMin (load_key counters) eligible probe e in
        let (i, suits) =
          retain-In (is_routable lowercase enforcement path model) probes probe
            (IsFirstMin-In (load_key counters) probe eligible first) in
        (
          probe,
          ground (arith, e, h),
          i,
          suits,
          (λ other j f.
              IsFirstMin-least (load_key counters) probe eligible first other
                (In-retain (is_routable lowercase enforcement path model) probes other j f)),
          first,
        )
  ]

  pub select_upstream-err :
      (e : ApiFailure)
      → select_upstream lowercase enforcement counters path model request_id probes ≡ err e
      → e ≡ no_routable_upstream request_id
  unfolding select_upstream
  select_upstream-err e h = elim (Option-cases (min_by_key (load_key counters) eligible)) [
    | inl f ↦ ground (arith, f, h)
    | inr (probe, f) ↦ absurd (ground (arith, f, h))
  ]

  -- The answer is 503 exactly where no probe is ready and supports the route and the model.
  pub select_upstream-none :
      (select_upstream lowercase enforcement counters path model request_id probes
        ≡ err (no_routable_upstream request_id))
      ↔ ((probe : UpstreamProbe)
          → In probe probes
          → is_routable lowercase enforcement path model probe ≡ false)
  unfolding select_upstream
  select_upstream-none = elim (Option-cases (min_by_key (load_key counters) eligible)) [
    | inl e ↦
        let nobody = min_by_key-none (load_key counters) eligible e in
        ((λ h probe i. unsuited nobody probe i), (λ h. ground (arith, e)))
    | inr (probe, e) ↦
        let first = min_by_key-IsFirstMin (load_key counters) eligible probe e in
        let (i, suits) =
          retain-In (is_routable lowercase enforcement path model) probes probe
            (IsFirstMin-In (load_key counters) probe eligible first) in
        (
          (λ h. absurd (ground (arith, e, h))),
          (λ h. let refused = h probe i in absurd (ground (arith, suits, refused))),
        )
  ]
    where
      nowhere :
          {probe : UpstreamProbe}
          → In probe []
          → is_routable lowercase enforcement path model probe ≡ false
      nowhere i = elim i [ ]

      unsuited :
          eligible ≡ []
          → (probe : UpstreamProbe) → In probe probes
          → is_routable lowercase enforcement path model probe ≡ false
      unsuited nobody probe i =
          elim (Bool-cases (is_routable lowercase enforcement path model probe)) [
            | inl e ↦ nowhere (
                subst (In probe) nobody
                  (In-retain (is_routable lowercase enforcement path model) probes probe i e))
            | inr e ↦ e
          ]
