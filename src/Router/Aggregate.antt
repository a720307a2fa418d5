-- ===== src/Router/Aggregate.antt =====
-- What the router says of its nodes together: `aggregate_models` and the sums of `aggregate_load` of
-- crates/lmml-router/src/lib.rs. Sums wrap around, as in a release build.
pub mod Models
pub mod Capabilities
pub mod Routable
use lmml.Base.{
  ◌+◌, ◌-◌, ◌/◌, ◌%◌, String, true, false, Option, none, some, List, [], ◌∷◌, ◌++◌, if◌then◌else◌,
  any,
}
use lmml.Base.Text.{mem_text}
use lmml.Api.{ready, degraded, ModelDescriptor, NodeCapabilities, LoadResponse}
use lmml.Router.Types.{RouterConfig, RouterCounters, UpstreamProbe}
use lmml.Router.Counters.{u32_end, u64_end, router_counter_snapshot}
use lmml.Router.Selection.{is_ready, running_requests}

abbrev pub models_of : Option NodeCapabilities → List ModelDescriptor
models_of none = []
models_of (some capabilities) = capabilities.models

-- The models of the ready probes, in their order.
unfoldable pub ready_models :
    (enforcement : Option String) → List UpstreamProbe → List ModelDescriptor
ready_models enforcement [] = []
ready_models enforcement (probe ∷ probes) =
    let rest = ready_models enforcement probes in
    if is_ready enforcement probe then models_of probe.capabilities ++ rest else rest

-- The loop; `model_ids` are the identifiers so far.
unfoldable pub first_of_each :
    (model_ids : List String) → List ModelDescriptor → List ModelDescriptor
first_of_each model_ids [] = []
first_of_each model_ids (model ∷ models) = elim (mem_text model.id model_ids) [
  | true ↦ first_of_each model_ids models
  | false ↦ model ∷ first_of_each (model.id ∷ model_ids) models
]

unfoldable pub aggregate_models :
    (enforcement : Option String) → List UpstreamProbe → List ModelDescriptor
aggregate_models enforcement probes = first_of_each [] (ready_models enforcement probes)

-- One ready probe's load added to the totals: memory, requests and tokens.
abbrev add_load : LoadResponse → Option LoadResponse → LoadResponse
add_load total none = total
add_load total (some load) = record total {
  memory_total_mb = (total.memory_total_mb + load.memory_total_mb) % u64_end;
  memory_used_mb = (total.memory_used_mb + load.memory_used_mb) % u64_end;
  running_requests = (total.running_requests + load.running_requests) % u32_end;
  completed_requests = (total.completed_requests + load.completed_requests) % u64_end;
  failed_requests = (total.failed_requests + load.failed_requests) % u64_end;
  tokens_in_total = (total.tokens_in_total + load.tokens_in_total) % u64_end;
  tokens_out_total = (total.tokens_out_total + load.tokens_out_total) % u64_end;
  gpus = total.gpus ++ load.gpus;
}

unfoldable pub add_loads :
    (enforcement : Option String) → LoadResponse → List UpstreamProbe → LoadResponse
add_loads enforcement total [] = total
add_loads enforcement total (probe ∷ probes) =
    add_loads enforcement (if is_ready enforcement probe then add_load total probe.load else total)
      probes

unfoldable pub aggregate_load :
    (enforcement : Option String)
    → RouterConfig
    → RouterCounters
    → List UpstreamProbe
    → LoadResponse
aggregate_load enforcement config counters probes =
    let snapshot = router_counter_snapshot counters in
    add_loads enforcement
      (record {
        node_id = config.router_id;
        status = if any (is_ready enforcement) probes then ready else degraded;
        cpu_usage_pct = record { bits = 0 };
        memory_total_mb = 0;
        memory_used_mb = 0;
        gpus = [];
        running_requests = snapshot.running_requests;
        completed_requests = snapshot.completed_requests;
        failed_requests = snapshot.failed_requests;
        tokens_in_total = 0;
        tokens_out_total = 0;
      })
      probes
