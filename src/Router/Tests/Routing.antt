-- ===== src/Router/Tests/Routing.antt =====
-- The theorems about crates/lmml-router, for the router of the parent.
use lmml.Base.{
  ℕ, ◌+◌, ◌≤◌, String, ◌≡◌, refl, ◌≢◌, true, false, Option, none, some, List, [], ◌∷◌, map, arith,
  retain, In, Pairwise, ok, err,
}
use lmml.Base.Maps.{adjust, upsert}
use lmml.Base.Text.{text_lt, trim, split_once}
use lmml.Substrate.Json.{string, object, end, field}
use lmml.Api.{cuda, ModelDescriptor, LanNodeAdvertisement}
use lmml.Router.Types.{UpstreamNodeConfig, RouterCounters, UpstreamProbe, unknown_upstream_key}
use lmml.Router.Counters.{
  begins, ends, no_requests, increment_router_running, finish_router_request,
  upstream_running_requests, router_counter_snapshot, raised, lowered, Calls, idle, Calls-counted,
}
use lmml.Router.Specs.{
  upstream_url, parse_upstream_spec, set_key, parse_key_spec, Applied, apply_from,
  apply_upstream_key_specs,
}
use lmml.Router.Specs.Keys.{without_key, NoEmptyKey, apply_upstream_key_specs-keeps}
use lmml.Router.Discovery.{DiscoveredNodeTable}
use lmml.Router.Selection.{
  is_ready, model_supported, requested_model, is_routable, min_by_key, load_key, select_upstream,
}
use lmml.Router.Selection.Best.{IsFirstMin, select_upstream-IsBest}
use lmml.Router.Aggregate.{ready_models, first_of_each, aggregate_models, add_loads, aggregate_load}
use lmml.Router.Aggregate.Models.{IsServed, aggregate_models-IsOneOfEach}
use lmml.Router.Tests.{static_node, config, capable, probe, probes}

abbrev chat : String
chat = "/v1/chat/completions"

abbrev same_case : String → String
same_case text = text

second_chosen :
    select_upstream same_case none no_requests chat none none probes ≡ ok (static_node "n2")
unfolding select_upstream min_by_key load_key is_routable
second_chosen = refl

select_upstream-IsBest_example :
    (best : UpstreamProbe) × (best.config ≡ static_node "n2")
    × In best probes
    × (is_routable same_case none chat none best ≡ true)
    × ((other : UpstreamProbe)
        → In other probes
        → is_routable same_case none chat none other ≡ true
        → load_key no_requests best ≤ load_key no_requests other)
    × IsFirstMin (load_key no_requests) best (retain (is_routable same_case none chat none) probes)
select_upstream-IsBest_example =
    select_upstream-IsBest same_case none no_requests chat none none probes (static_node "n2")
      second_chosen

abbrev one_open : RouterCounters
one_open =
    finish_router_request
      (increment_router_running (increment_router_running no_requests "n1") "n2") "n1" true

abbrev open_calls : String → ℕ
open_calls = lowered (raised (raised (λ q. 0) "n1") "n2") "n1"

three_steps : Calls one_open open_calls 1
three_steps =
    ends (begins (begins idle "n1" (omega arith)) "n2" (omega arith)) "n1" true (omega arith)
      (omega arith)

Calls-counted_example :
    ((q : String) → upstream_running_requests one_open q ≡ open_calls q)
    × (one_open.completed_requests + one_open.failed_requests ≡ 1)
Calls-counted_example = Calls-counted three_steps

abbrev advertisement : LanNodeAdvertisement
advertisement = record {
  magic = "lmml.node.advertisement";
  version = 1;
  api_version = "lmml-node-api/v1";
  node_id = "n3";
  node_name = "n3";
  public_url = "http://n3:8101/";
  backend = cuda;
  gpus = [];
  models = [];
  auth_required = true;
  roles = [];
  tags = [];
  last_seen_utc = "";
}

abbrev table : DiscoveredNodeTable
table = ("n3", record { advertisement = advertisement; last_seen = 5 }) ∷ []

abbrev third : UpstreamNodeConfig
third = record {
  name = "n3";
  base_url = "http://n3:8101";
  api_key = some "probe";
  discovered = true;
}

abbrev specs : List String
specs = "n2 = token" ∷ "default=probe" ∷ "n9=x" ∷ []

abbrev after : Applied
after = apply_upstream_key_specs config.upstreams specs

apply_upstream_key_specs-keeps_example :
    (map without_key after.1 ≡ map without_key config.upstreams)
    × (NoEmptyKey config.upstreams → NoEmptyKey after.1)
    × ((d : Option String) → after.0 ≡ ok d → d ≢ some "")
apply_upstream_key_specs-keeps_example = apply_upstream_key_specs-keeps config.upstreams specs

-- The keys set before a wrong specification stay; an inferred name is the authority of the URL.
specs_tests :
    (after.0 ≡ err (unknown_upstream_key "n9"))
    × (parse_upstream_spec " lab = http://lab:8101/ "
        ≡ ok (record {
          name = "lab";
          base_url = "http://lab:8101";
          api_key = none;
          discovered = false;
        }))
    × (parse_upstream_spec "http://10.0.0.2:8101"
        ≡ ok (record {
          name = "10-0-0-2-8101";
          base_url = "http://10.0.0.2:8101";
          api_key = none;
          discovered = false;
        }))
    × (upstream_url "http://lab:8101/" "/v1/load" ≡ "http://lab:8101/v1/load")
    × (parse_upstream_spec "http://"
        ≡ ok (record { name = ""; base_url = "http:"; api_key = none; discovered = false }))
unfolding apply_upstream_key_specs apply_from parse_key_spec set_key split_once trim
    parse_upstream_spec upstream_url
specs_tests = (refl, refl, refl, refl, refl)

model_tests :
    (model_supported same_case capable (some "qwen") ≡ true)
    × (requested_model chat (object (field "model" (string "qwen") end)) ≡ some "qwen")
    × (requested_model chat (object (field "model" (string " ") end)) ≡ none)
unfolding model_supported requested_model
model_tests = (refl, refl, refl)

abbrev qwen : ModelDescriptor
qwen = record {
  id = "qwen";
  name = "Qwen";
  path = none;
  architecture = none;
  quantization = none;
  context_length = none;
  size_bytes = none;
  loaded = true;
  aliases = [];
}

abbrev serving : List UpstreamProbe
serving =
    record (probe "n1" 3) { capabilities = some (record capable { models = qwen ∷ [] }) }
    ∷ record (probe "n2" 1) { capabilities = some (record capable { models = qwen ∷ [] }) }
    ∷ []

aggregate_tests :
    (aggregate_models none serving ≡ qwen ∷ [])
    × ((aggregate_load none config one_open serving).running_requests ≡ 5)
unfolding aggregate_models first_of_each ready_models is_ready aggregate_load add_loads
    router_counter_snapshot increment_router_running finish_router_request upsert adjust text_lt
aggregate_tests = (refl, refl)

aggregate_models-IsOneOfEach_example :
    Pairwise (λ (a b : ModelDescriptor). a.id ≢ b.id) (aggregate_models none serving)
    × ((m : ModelDescriptor) → In m (aggregate_models none serving) → IsServed none serving m)
    × ((m : ModelDescriptor)
        → IsServed none serving m
        → (n : ModelDescriptor) × In n (aggregate_models none serving) × (n.id ≡ m.id))
aggregate_models-IsOneOfEach_example = aggregate_models-IsOneOfEach none serving
