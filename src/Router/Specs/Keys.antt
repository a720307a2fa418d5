-- ===== src/Router/Specs/Keys.antt =====
-- What `apply_upstream_key_specs` of crates/lmml-router/src/lib.rs changes.
use lmml.Base.{
  String, ◌≡◌, refl, ap, ◌∙◌, subst, ◌≢◌, inl, inr, Option, none, some, List, [], ◌∷◌, map, arith,
  ◌==◌, eq_iff, Bool-cases, Option-cases, In, here, there, Result, ok, err,
}
use lmml.Base.Text.{trim, split_once}
use lmml.Router.Types.{UpstreamNodeConfig, RouterConfigError, unknown_upstream_key}
use lmml.Router.Specs.{
  set_key, parse_key_spec, Applied, apply_one, apply_parsed, apply_from, apply_upstream_key_specs,
}

-- All of an upstream but its key.
abbrev pub without_key : UpstreamNodeConfig → UpstreamNodeConfig
without_key u = record u { api_key = none }

-- No upstream is called with an empty key.
abbrev pub NoEmptyKey : List UpstreamNodeConfig → Type 0
NoEmptyKey upstreams = (u : UpstreamNodeConfig) → In u upstreams → u.api_key ≢ some ""

abbrev Rekeyed : (key : String) → (before after : List UpstreamNodeConfig) → Type 0
Rekeyed key before after =
    (map without_key after ≡ map without_key before)
    × (key ≢ "" → NoEmptyKey before → NoEmptyKey after)

set_key-keeps :
    (name key : String) (upstreams changed : List UpstreamNodeConfig)
    → set_key name key upstreams ≡ some changed
    → Rekeyed key upstreams changed
unfolding set_key
set_key-keeps name key [] changed h = cc
set_key-keeps name key (u ∷ upstreams) changed h = elim (Bool-cases (u.name == name)) [
  | inl e ↦
      let first : record u { api_key = some key } ∷ upstreams ≡ changed = ground (arith, e, h) in
      subst (Rekeyed key (u ∷ upstreams)) first (refl, λ filled old x i. set_here filled old x i)
  | inr e ↦ elim (Option-cases (set_key name key upstreams)) [
    | inl f ↦ absurd (ground (arith, e, f, h))
    | inr (others, f) ↦
        let later : u ∷ others ≡ changed = ground (arith, e, f, h) in
        let (same, filled) = set_key-keeps name key upstreams others f in
        subst (Rekeyed key (u ∷ upstreams)) later (
          ap (λ c. without_key u ∷ c) same,
          λ full old x i. set_there others (filled full (λ y j. old y (there j))) old x i,
        )
  ]
]
  where
    set_here :
        key ≢ ""
        → NoEmptyKey (u ∷ upstreams)
        → (x : UpstreamNodeConfig) → In x (record u { api_key = some key } ∷ upstreams)
        → x.api_key ≢ some ""
    set_here filled old x (here e) = rw e (λ f. filled (ground (arith, f)))
    set_here filled old x (there i) = old x (there i)

    set_there :
        (others : List UpstreamNodeConfig)
        → NoEmptyKey others
        → NoEmptyKey (u ∷ upstreams)
        → (x : UpstreamNodeConfig) → In x (u ∷ others)
        → x.api_key ≢ some ""
    set_there others filled old x (here e) = old x (here e)
    set_there others filled old x (there i) = filled x i

parse_key_spec-filled :
    (spec : String) (parts : String × String)
    → parse_key_spec spec ≡ ok parts
    → (parts.0 ≢ "") × (parts.1 ≢ "")
unfolding parse_key_spec
parse_key_spec-filled spec parts h = elim (Option-cases (split_once b'=' spec)) [
  | inl e ↦ absurd (ground (arith, e, h))
  | inr (found, e) ↦
      let same : (trim found.0, trim found.1) ≡ parts = ground (arith, e, h) in
      subst (λ (x : String × String). (x.0 ≢ "") × (x.1 ≢ "")) same
        (
          (λ f. ground (arith, e, h, (eq_iff (trim found.0) "").1 f)),
          (λ f. ground (arith, e, h, (eq_iff (trim found.1) "").1 f)),
        )
]

-- What an application of keys keeps.
record Keeps (default_key : Option String) (upstreams : List UpstreamNodeConfig) (after : Applied)
    : Type 0 where
  same : map without_key after.1 ≡ map without_key upstreams
  filled : NoEmptyKey upstreams → NoEmptyKey after.1
  default_filled : default_key ≢ some "" → (d : Option String) → after.0 ≡ ok d → d ≢ some ""

Keeps-err :
    (default_key : Option String) (upstreams : List UpstreamNodeConfig) (e : RouterConfigError)
    → Keeps default_key upstreams (err e, upstreams)
Keeps-err default_key upstreams e = record {
  same = refl;
  filled = λ h. h;
  default_filled = λ h d f. cc;
}

apply_one-Keeps :
    (upstreams : List UpstreamNodeConfig) (default_key : Option String) (name key : String)
    (next : Option String → List UpstreamNodeConfig → Applied)
    → key ≢ ""
    → ((d : Option String) (us : List UpstreamNodeConfig) → Keeps d us (next d us))
    → Keeps default_key upstreams (apply_one upstreams default_key name key next)
apply_one-Keeps upstreams default_key name key next full rest =
    elim (Bool-cases (name == "default")) [
      | inl e ↦
          let k = rest (some key) upstreams in
          rw e (record {
            same = k.same;
            filled = k.filled;
            default_filled = λ h. k.default_filled (λ f. full (ground (arith, f)));
          })
      | inr e ↦ elim (Option-cases (set_key name key upstreams)) [
        | inl f ↦ rw e (rw f (Keeps-err default_key upstreams (unknown_upstream_key name)))
        | inr (changed, f) ↦
            let k = rest default_key changed in
            let (same, filled) = set_key-keeps name key upstreams changed f in
            rw e (
              rw f (record {
                same = k.same ∙ same;
                filled = λ h. k.filled (filled full h);
                default_filled = k.default_filled;
              }))
      ]
    ]

apply_parsed-Keeps :
    (parsed : Result RouterConfigError (String × String)) (default_key : Option String)
    (upstreams : List UpstreamNodeConfig) (next : Option String → List UpstreamNodeConfig → Applied)
    → ((parts : String × String) → parsed ≡ ok parts → (parts.0 ≢ "") × (parts.1 ≢ ""))
    → ((d : Option String) (us : List UpstreamNodeConfig) → Keeps d us (next d us))
    → Keeps default_key upstreams (apply_parsed parsed default_key upstreams next)
apply_parsed-Keeps (err e) default_key upstreams next full rest = Keeps-err default_key upstreams e
apply_parsed-Keeps (ok (name, key)) default_key upstreams next full rest =
    apply_one-Keeps upstreams default_key name key next (full (name, key) refl).1 rest

apply_from-Keeps :
    (specs : List String) (default_key : Option String) (upstreams : List UpstreamNodeConfig)
    → Keeps default_key upstreams (apply_from specs default_key upstreams)
unfolding apply_from
apply_from-Keeps [] default_key upstreams = record {
  same = refl;
  filled = λ h. h;
  default_filled = λ h d e f. h (ground (arith, e, f));
}
apply_from-Keeps (spec ∷ specs) default_key upstreams =
    apply_parsed-Keeps (parse_key_spec spec) default_key upstreams (apply_from specs)
      (parse_key_spec-filled spec) (λ d us. apply_from-Keeps specs d us)

-- Applying keys changes nothing of the upstreams but their keys, also where it fails at a later
-- specification; it sets no empty key, and the default key that it answers with is not empty.
pub apply_upstream_key_specs-keeps :
    (upstreams : List UpstreamNodeConfig) (specs : List String)
    → let after = apply_upstream_key_specs upstreams specs in
      (map without_key after.1 ≡ map without_key upstreams)
      × (NoEmptyKey upstreams → NoEmptyKey after.1)
      × ((d : Option String) → after.0 ≡ ok d → d ≢ some "")
unfolding apply_upstream_key_specs
apply_upstream_key_specs-keeps upstreams specs =
    let k = apply_from-Keeps specs none upstreams in (k.same, k.filled, k.default_filled (λ h. cc))
