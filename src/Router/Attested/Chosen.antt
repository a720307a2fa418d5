-- ===== src/Router/Attested/Chosen.antt =====
-- The upstreams to which the router of crates/lmml-router/src/lib.rs sends requests where approvals are
-- enforced.
use lmml.Base.{
  String, ◌≡◌, refl, ap, sym, ◌∙◌, Bool, true, Option, none, some, List, [], ◌∷◌, arith, In, here,
  there, ok, err, >>=-ok, ok_inj,
}
use lmml.Base.Int.{ℤ}
use lmml.Api.{HealthResponse}
use lmml.Api.Attestation.{AttestationPlatform, Attested}
use lmml.Router.Types.{UpstreamNodeConfig, RouterCounters, UpstreamProbe}
use lmml.Router.Selection.{approval_enforcement_enabled, is_ready, is_routable, select_upstream}
use lmml.Router.Selection.Best.{select_upstream-IsBest}
use lmml.Router.Attested.{
  HealthAnswer, get_upstream_health, probe_of, fetch_upstream_probe, joined, Asked,
  discover_upstreams,
}
use lmml.Router.Attested.Bound.{IsBound, fetched-IsBound}

is_routable-approved :
    (lowercase : String → String) (enforcement : Option String) (path : String)
    (model : Option String) (probe : UpstreamProbe)
    → approval_enforcement_enabled enforcement ≡ true
    → is_routable lowercase enforcement path model probe ≡ true
    → probe.approved_upstream ≡ true
unfolding is_routable is_ready
is_routable-approved lowercase enforcement path model probe on h = ground (arith, on, h)

module _ (p : AttestationPlatform) (var : String → Option String) (now : ℤ) where
  probe_of_config :
      (config : UpstreamNodeConfig) (found : Option (Option HealthResponse × Bool)) (asked : Asked)
      → (probe_of p var now config found asked.1.1.0 asked.1.1.1).config ≡ config
  probe_of_config config none asked = refl
  probe_of_config config (some found) asked = refl

  fetched_config :
      (asked : Asked) (probe : UpstreamProbe)
      → fetch_upstream_probe p var now asked.0 asked.1.0 asked.1.1.0 asked.1.1.1 ≡ ok probe
      → probe.config ≡ asked.0
  unfolding fetch_upstream_probe
  fetched_config asked probe h =
      let (found, e, k) = >>=-ok (get_upstream_health p var now asked.1.0) _ h in
      sym (ap (λ (u : UpstreamProbe). u.config) (ok_inj _ probe k))
      ∙ probe_of_config asked.0 found asked

  -- A probe is that of one of the upstreams.
  discovered :
      (answers : List Asked) (probe : UpstreamProbe)
      → In probe (discover_upstreams p var now answers)
      → (asked : Asked) × In asked answers
        × (fetch_upstream_probe p var now asked.0 asked.1.0 asked.1.1.0 asked.1.1.1 ≡ ok probe)
  unfolding discover_upstreams
  discovered [] probe i = elim i [ ]
  discovered (asked ∷ answers) probe i =
      by_probe (fetch_upstream_probe p var now asked.0 asked.1.0 asked.1.1.0 asked.1.1.1) refl i
        (discovered answers probe)
    where
      by_probe :
          (r : Attested UpstreamProbe)
          → fetch_upstream_probe p var now asked.0 asked.1.0 asked.1.1.0 asked.1.1.1 ≡ r
          → In probe (joined r (discover_upstreams p var now answers))
          → (In probe (discover_upstreams p var now answers)
              → (asked : Asked) × In asked answers
                × (fetch_upstream_probe p var now asked.0 asked.1.0 asked.1.1.0 asked.1.1.1
                    ≡ ok probe))
          → (a : Asked) × In a (asked ∷ answers)
            × (fetch_upstream_probe p var now a.0 a.1.0 a.1.1.0 a.1.1.1 ≡ ok probe)
      by_probe (ok found) e (here same) rest = (asked, here refl, e ∙ ap ok (sym same))
      by_probe (ok found) e (there i) rest = let (a, j, k) = rest i in (a, there j, k)
      by_probe (err x) e i rest = let (a, j, k) = rest i in (a, there j, k)

  -- Where approvals are enforced: whatever the upstreams answer, the upstream that is chosen for a
  -- request is one whose health answer carries an attestation under the public key of the
  -- environment, with the gateway, deployment, receipt, sequence and epoch that the environment
  -- names, and which had not expired.
  pub select_upstream-IsBound :
      (lowercase : String → String) (counters : RouterCounters) (path : String)
      (model request_id : Option String) (answers : List Asked) (config : UpstreamNodeConfig)
      → approval_enforcement_enabled (var "LMML_APPROVAL_ENFORCEMENT") ≡ true
      → select_upstream lowercase
          (var "LMML_APPROVAL_ENFORCEMENT")
          counters
          path
          model
          request_id
          (discover_upstreams p var now answers)
        ≡ ok config
      → (asked : Asked) × In asked answers
        × (asked.0 ≡ config)
        × (response : HealthAnswer) × (asked.1.0 ≡ some response)
        × IsBound p var now response
  select_upstream-IsBound lowercase counters path model request_id answers config on h =
      let enforcement = var "LMML_APPROVAL_ENFORCEMENT" in
      let (probe, named, listed, routable, least, first) =
        select_upstream-IsBest lowercase enforcement counters path model request_id
          (discover_upstreams p var now answers) config h in
      let (asked, i, fetched) = discovered answers probe listed in
      let bound =
        fetched-IsBound p var now asked probe on fetched
          (is_routable-approved lowercase enforcement path model probe on routable) in
      (asked, i, sym (fetched_config asked probe fetched) ∙ named, bound.0, bound.1, bound.2)
