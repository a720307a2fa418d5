-- ===== src/Router/Aggregate/Routable.antt =====
-- The routes of `aggregate_capabilities` of crates/lmml-router/src/lib.rs against `select_upstream`.
use lmml.Base.{
  ℕ, String, ◌≡◌, refl, ap, sym, ◌∙◌, ◌↔◌, inl, inr, Bool, true, false, ◌||◌, ◌&&◌, Option, none,
  some, List, [], ◌∷◌, ◌++◌, ◌==◌, any, any-In, any-none, if◌then◌else◌, Bool-cases, In, ok, err,
  Result-cases,
}
use lmml.Api.{NodeCapabilities}
use lmml.Router.Types.{UpstreamNodeConfig, RouterConfig, RouterCounters, UpstreamProbe, ApiFailure}
use lmml.Router.Selection.{is_ready, route_supported, model_supported, is_routable, select_upstream}
use lmml.Router.Selection.Best.{select_upstream-IsBest, select_upstream-none, select_upstream-err}
use lmml.Router.Aggregate.Capabilities.{
  Totals, no_totals, add_capabilities, add_all, listed, ready_capabilities, aggregate_capabilities,
}

or_assoc : (a b c : Bool) → ((a || b) || c) ≡ (a || (b || c))
or_assoc true b c = refl
or_assoc false b c = refl

or_false : (a : Bool) → (a || false) ≡ a
or_false true = refl
or_false false = refl

-- A flag of the totals is set where it was or some node sets it.
gathered :
    (flag : Totals → Bool) (own : NodeCapabilities → Bool)
    → ((totals : Totals) (capabilities : NodeCapabilities)
        → flag (add_capabilities totals capabilities) ≡ (flag totals || own capabilities))
    → (totals : Totals) (nodes : List NodeCapabilities)
    → flag (add_all totals nodes) ≡ (flag totals || any own nodes)
unfolding add_all
gathered flag own added totals [] = sym (or_false (flag totals))
gathered flag own added totals (node ∷ nodes) =
    gathered flag own added (add_capabilities totals node) nodes
    ∙ ap (λ b. b || any own nodes) (added totals node)
    ∙ or_assoc (flag totals) (own node) (any own nodes)

module _ (enforcement : Option String) (version : String) (active : ℕ) (config : RouterConfig)
    (path : String) where
  capable-any :
      (probes : List UpstreamProbe)
      → route_supported (aggregate_capabilities enforcement version active config probes) path
        ≡ any (λ c. route_supported c path) (ready_capabilities enforcement probes)
  unfolding route_supported aggregate_capabilities add_capabilities
  capable-any probes =
      by_path (path == "/v1/infer") (path == "/v1/chat/completions") (path == "/v1/responses")
        (path == "/v1/messages") (path == "/v1/embeddings")
    where
      nodes : List NodeCapabilities
      nodes = ready_capabilities enforcement probes

      all : Totals
      all = add_all no_totals nodes

      nowhere : (cs : List NodeCapabilities) → false ≡ any (λ c. false) cs
      nowhere [] = refl
      nowhere (c ∷ cs) = nowhere cs

      by_path :
          (a b c d e : Bool)
          → (if a
              then all.supports_infer
              else if b
              then all.supports_chat_completions
              else if c
              then all.supports_responses
              else if d
              then all.supports_anthropic_messages
              else if e
              then all.supports_embeddings
              else false)
            ≡ any
                (λ (n : NodeCapabilities).
                  if a
                  then n.supports_infer
                  else if b
                  then n.supports_chat_completions
                  else if c
                  then n.supports_responses
                  else if d
                  then n.supports_anthropic_messages
                  else if e
                  then n.supports_embeddings
                  else false)
                nodes
      by_path true b c d e =
          gathered (λ t. t.supports_infer) (λ n. n.supports_infer) (λ t n. refl) no_totals nodes
      by_path false true c d e =
          gathered (λ t. t.supports_chat_completions) (λ n. n.supports_chat_completions)
            (λ t n. refl) no_totals nodes
      by_path false false true d e =
          gathered (λ t. t.supports_responses) (λ n. n.supports_responses) (λ t n. refl) no_totals
            nodes
      by_path false false false true e =
          gathered (λ t. t.supports_anthropic_messages) (λ n. n.supports_anthropic_messages)
            (λ t n. refl) no_totals nodes
      by_path false false false false true =
          gathered (λ t. t.supports_embeddings) (λ n. n.supports_embeddings) (λ t n. refl) no_totals
            nodes
      by_path false false false false false = nowhere nodes

  module _ (lowercase : String → String) where
    abbrev suits : UpstreamProbe → Bool
    suits = is_routable lowercase enforcement path none

    ready-any :
        (probes : List UpstreamProbe)
        → any (λ c. route_supported c path) (ready_capabilities enforcement probes)
          ≡ any suits probes
    unfolding ready_capabilities is_routable model_supported
    ready-any [] = refl
    ready-any (probe ∷ probes) =
        by_probe (is_ready enforcement probe) probe.capabilities (ready-any probes)
      where
        and_true : (b : Bool) → b ≡ (b && true)
        and_true true = refl
        and_true false = refl

        by_probe :
            (b : Bool) (o : Option NodeCapabilities)
            → any (λ c. route_supported c path) (ready_capabilities enforcement probes)
              ≡ any (is_routable lowercase enforcement path none) probes
            → any
                (λ c. route_supported c path)
                (if b
                  then listed o ++ ready_capabilities enforcement probes
                  else ready_capabilities enforcement probes)
              ≡ ((b && elim o [ none ↦ false | some c ↦ (route_supported c path && true) ])
                  || any (is_routable lowercase enforcement path none) probes)
        by_probe false o e = e
        by_probe true none e = e
        by_probe true (some c) e =
            ap (λ b. route_supported c path || b) e
            ∙ ap (λ b. b || any (is_routable lowercase enforcement path none) probes)
                (and_true (route_supported c path))

    -- Whatever the counters: the capabilities that the router shows support a route exactly where a
    -- request for that route that names no model has an upstream, for the same probes.
    pub aggregate_capabilities-routable :
        (counters : RouterCounters) (request_id : Option String) (probes : List UpstreamProbe)
        → (route_supported (aggregate_capabilities enforcement version active config probes) path
            ≡ true)
          ↔ ((upstream : UpstreamNodeConfig) × (select_upstream lowercase enforcement counters path
                  none request_id probes
                ≡ ok upstream))
    aggregate_capabilities-routable counters request_id probes = (
      (λ h.
          let (probe, i, suited) =
            any-In (is_routable lowercase enforcement path none) probes
              (sym (advertised probes) ∙ h) in
          elim (Result-cases
            (select_upstream lowercase enforcement counters path none request_id probes)) [
              | inl found ↦ found
              | inr (e, failed) ↦ absurd (refused probe i suited e failed)
            ]),
      (λ (upstream, found).
          let (probe, named, i, suited, least, first) =
            select_upstream-IsBest lowercase enforcement counters path none request_id probes
              upstream found in
          elim (Bool-cases (any suits probes)) [
            | inl e ↦ advertised probes ∙ e
            | inr e ↦ absurd (contrary suited (any-none suits probes e probe i))
          ]),
    )
      where
        advertised :
            (ps : List UpstreamProbe)
            → route_supported (aggregate_capabilities enforcement version active config ps) path
              ≡ any suits ps
        advertised ps = capable-any ps ∙ ready-any ps

        contrary : {b : Bool} → b ≡ true → b ≡ false → ⊥
        contrary h k = cc

        refused :
            (probe : UpstreamProbe)
            → In probe probes
            → suits probe ≡ true
            → (e : ApiFailure)
            → select_upstream lowercase enforcement counters path none request_id probes ≡ err e
            → ⊥
        refused probe i suited e failed =
            let reason =
              select_upstream-err lowercase enforcement counters path none request_id probes e
                failed in
            contrary suited (
              (select_upstream-none lowercase enforcement counters path none request_id probes).0
                (failed ∙ ap err reason) probe i)
