-- ===== src/Router/Counters.antt =====
-- The counters of requests: `increment_router_running`, `finish_router_request` and what reads them,
-- in crates/lmml-router/src/lib.rs. The lock is not poisoned. Sums wrap around, as in a release
-- build.
use lmml.Base.{
  ℕ, suc, ◌+◌, ◌-◌, ◌%◌, ◌^◌, ◌<◌, String, ◌≡◌, refl, sym, ap, ◌∙◌, subst, inl, inr, Bool, true,
  false, [], ◌∷◌, arith, ◌==◌, eq_iff, if◌then◌else◌, Bool-cases, Option-cases, unwrap_or,
}
use lmml.Base.Maps.{
  Map, lookup, adjust, upsert, lookup-adjust_self, lookup-adjust_other, lookup-adjust-none,
  lookup-upsert_self, lookup-upsert_new, lookup-upsert_other,
}
use lmml.Router.Types.{RouterCounters, RouterCounterSnapshot}

abbrev pub u32_end : ℕ
u32_end = 2 ^ 32

abbrev pub u64_end : ℕ
u64_end = 2 ^ 64

-- `RouterCounters::default()`
abbrev pub no_requests : RouterCounters
no_requests = record { running_by_upstream = []; completed_requests = 0; failed_requests = 0 }

unfoldable pub increment_router_running : RouterCounters → String → RouterCounters
increment_router_running counters upstream = record counters {
  running_by_upstream =
      upsert (λ running. (running + 1) % u32_end) 0 upstream counters.running_by_upstream;
}

unfoldable pub finish_router_request : RouterCounters → String → Bool → RouterCounters
finish_router_request counters upstream success = record {
  running_by_upstream = adjust (λ running. running - 1) upstream counters.running_by_upstream;
  completed_requests =
      if success then (counters.completed_requests + 1) % u64_end else counters.completed_requests;
  failed_requests =
      if success then counters.failed_requests else (counters.failed_requests + 1) % u64_end;
}

unfoldable pub upstream_running_requests : RouterCounters → String → ℕ
upstream_running_requests counters upstream =
    unwrap_or (lookup upstream counters.running_by_upstream) 0

unfoldable pub sum_values : Map ℕ → ℕ
sum_values [] = 0
sum_values ((upstream, running) ∷ rest) = (running + sum_values rest) % u32_end

unfoldable pub router_counter_snapshot : RouterCounters → RouterCounterSnapshot
unfolding sum_values
router_counter_snapshot counters = record {
  running_requests = sum_values counters.running_by_upstream;
  completed_requests = counters.completed_requests;
  failed_requests = counters.failed_requests;
}

-- What calls of upstreams do, in any interleaving: `busy` says how many calls of each upstream have
-- begun and not ended. A call ends after it began; fewer than 2 ^ 32 calls of an upstream are open.
abbrev pub raised : (String → ℕ) → String → String → ℕ
raised busy upstream q = if upstream == q then suc (busy q) else busy q

abbrev pub lowered : (String → ℕ) → String → String → ℕ
lowered busy upstream q = if upstream == q then busy q - 1 else busy q

pub data Calls : RouterCounters → (busy : String → ℕ) → (ended : ℕ) → Type 0 where
  idle : Calls no_requests (λ q. 0) 0
  begins :
      {counters : RouterCounters} {busy : String → ℕ} {ended : ℕ}
      → Calls counters busy ended
      → (upstream : String) → suc (busy upstream) < u32_end
      → Calls (increment_router_running counters upstream) (raised busy upstream) ended
  ends :
      {counters : RouterCounters} {busy : String → ℕ} {ended : ℕ}
      → Calls counters busy ended
      → (upstream : String) (success : Bool) → 0 < busy upstream
      → suc ended < u64_end
      → Calls (finish_router_request counters upstream success) (lowered busy upstream) (suc ended)

module _ (counters : RouterCounters) (upstream : String) where
  pub increment_self :
      suc (upstream_running_requests counters upstream) < u32_end
      → upstream_running_requests (increment_router_running counters upstream) upstream
        ≡ suc (upstream_running_requests counters upstream)
  unfolding upstream_running_requests increment_router_running
  increment_self fits = elim (Option-cases (lookup upstream counters.running_by_upstream)) [
    | inl e ↦
        let new =
          lookup-upsert_new (λ n. (n + 1) % u32_end) 0 upstream counters.running_by_upstream e in
        rw new (rw e refl)
    | inr (n, e) ↦
        let old =
          lookup-upsert_self (λ n. (n + 1) % u32_end) 0 upstream counters.running_by_upstream n e in
        let small : suc n < u32_end = subst (λ o. suc (unwrap_or o 0) < u32_end) e fits in
        rw old (rw e (omega (arith, small)))
  ]

  pub increment-other :
      (q : String)
      → upstream == q ≡ false
      → upstream_running_requests (increment_router_running counters upstream) q
        ≡ upstream_running_requests counters q
  unfolding upstream_running_requests increment_router_running
  increment-other q h =
      ap (λ o. unwrap_or o 0)
        (lookup-upsert_other (λ n. (n + 1) % u32_end) 0 upstream q counters.running_by_upstream h)

  pub finish_self :
      (success : Bool)
      → upstream_running_requests (finish_router_request counters upstream success) upstream
        ≡ upstream_running_requests counters upstream - 1
  unfolding upstream_running_requests finish_router_request
  finish_self success = elim (Option-cases (lookup upstream counters.running_by_upstream)) [
    | inl e ↦
        rw (lookup-adjust-none (λ n. n - 1) upstream counters.running_by_upstream e) (rw e refl)
    | inr (n, e) ↦
        rw (lookup-adjust_self (λ n. n - 1) upstream counters.running_by_upstream n e) (rw e refl)
  ]

  pub finish-other :
      (success : Bool) (q : String)
      → upstream == q ≡ false
      → upstream_running_requests (finish_router_request counters upstream success) q
        ≡ upstream_running_requests counters q
  unfolding upstream_running_requests finish_router_request
  finish-other success q h =
      ap (λ o. unwrap_or o 0)
        (lookup-adjust_other (λ n. n - 1) upstream q counters.running_by_upstream h)

  increment-raised :
      (busy : String → ℕ)
      → ((q : String) → upstream_running_requests counters q ≡ busy q)
      → suc (busy upstream) < u32_end
      → (q : String)
      → upstream_running_requests (increment_router_running counters upstream) q
        ≡ raised busy upstream q
  increment-raised busy counted fits q = elim (Bool-cases (upstream == q)) [
    | inl e ↦
        let same : upstream ≡ q = (eq_iff upstream q).0 e in
        let here_lem = increment_self (omega (arith, counted upstream, fits)) in
        rw e (rw (sym same) (here_lem ∙ ap suc (counted upstream)))
    | inr e ↦ rw e (increment-other q e ∙ counted q)
  ]

  finish-lowered :
      (busy : String → ℕ) (success : Bool)
      → ((q : String) → upstream_running_requests counters q ≡ busy q)
      → (q : String)
      → upstream_running_requests (finish_router_request counters upstream success) q
        ≡ lowered busy upstream q
  finish-lowered busy success counted q = elim (Bool-cases (upstream == q)) [
    | inl e ↦
        let same : upstream ≡ q = (eq_iff upstream q).0 e in
        rw e (rw (sym same) (finish_self success ∙ ap (λ n. n - 1) (counted upstream)))
    | inr e ↦ rw e (finish-other success q e ∙ counted q)
  ]

  finish-total :
      (success : Bool) (ended : ℕ)
      → counters.completed_requests + counters.failed_requests ≡ ended
      → suc ended < u64_end
      → let after = finish_router_request counters upstream success in
        after.completed_requests + after.failed_requests ≡ suc ended
  unfolding finish_router_request
  finish-total true ended total fits = omega (arith, total, fits)
  finish-total false ended total fits = omega (arith, total, fits)

-- In every interleaving of calls with fewer than 2 ^ 32 open calls of each upstream and fewer than
-- 2 ^ 64 calls that ended, the counter of each upstream is the number of its open calls, and the
-- completed and failed requests together are the calls that ended.
pub Calls-counted :
    {counters : RouterCounters} {busy : String → ℕ} {ended : ℕ}
    → Calls counters busy ended
    → ((q : String) → upstream_running_requests counters q ≡ busy q)
      × (counters.completed_requests + counters.failed_requests ≡ ended)
unfolding upstream_running_requests increment_router_running
Calls-counted idle = ((λ q. refl), refl)
Calls-counted (begins {counters} {busy} {ended} calls upstream fits) =
    let (counted, total) = Calls-counted calls in
    (increment-raised counters upstream busy counted fits, total)
Calls-counted (ends {counters} {busy} {ended} calls upstream success some_open fits) =
    let (counted, total) = Calls-counted calls in
    (
      finish-lowered counters upstream busy success counted,
      finish-total counters upstream success ended total fits,
    )
