-- ===== src/Router/Aggregate/Capabilities.antt =====
-- `aggregate_capabilities` and `health` of crates/lmml-router/src/lib.rs.
use Prim.Native.String
use lmml.Base.{
  ℕ, String, Bool, false, ◌||◌, Option, none, some, List, [], ◌∷◌, ◌++◌, ◌==◌, leb, ltb,
  if◌then◌else◌, length, retain, is_some,
}
use lmml.Base.Ascii.{ascii_text}
use lmml.Base.Decimal.{print_u64}
use lmml.Base.Text.{mem_text}
use lmml.Substrate.Json.{
  pos_int, Value, bool, number, string, array, object, Values, nil, cons, Fields, end, field,
}
use lmml.Api.{
  BackendKind, cuda, metal, hip, vulkan, cpu_avx2, cpu_avx, cpu_fallback, unknown, router,
  NodeStatus, ready, degraded, starting, stopped, error, GpuDescriptor, ModelDescriptor,
  NodeCapabilities, HealthResponse,
}
use lmml.Router.Types.{RouterConfig, UpstreamProbe}
use lmml.Router.Config.{api_key, privacy_tier}
use lmml.Router.Selection.{is_ready}
use lmml.Router.Aggregate.{first_of_each}

-- `format!("{:?}", …)` of a backend, and of a status in lower case.
abbrev pub backend_name : BackendKind → String
backend_name cuda = "Cuda"
backend_name metal = "Metal"
backend_name hip = "Hip"
backend_name vulkan = "Vulkan"
backend_name cpu_avx2 = "CpuAvx2"
backend_name cpu_avx = "CpuAvx"
backend_name cpu_fallback = "CpuFallback"
backend_name unknown = "Unknown"

abbrev pub status_name : NodeStatus → String
status_name ready = "ready"
status_name degraded = "degraded"
status_name starting = "starting"
status_name stopped = "stopped"
status_name error = "error"

abbrev pub insert_name : String → List String → List String
insert_name name names = if mem_text name names then names else name ∷ names

abbrev pub backend_of : String → BackendKind
backend_of name =
    if name == "Cuda"
    then cuda
    else if name == "Metal"
    then metal
    else if name == "Hip"
    then hip
    else if name == "Vulkan"
    then vulkan
    else if name == "CpuAvx2"
    then cpu_avx2
    else if name == "CpuAvx"
    then cpu_avx
    else if name == "CpuFallback"
    then cpu_fallback
    else unknown

-- `backends` are the names that were inserted, each once.
unfoldable pub aggregate_backend : (backends : List String) → BackendKind
aggregate_backend [] = unknown
aggregate_backend (name ∷ []) = backend_of name
aggregate_backend (name ∷ other ∷ rest) = unknown

-- `Option::max`
abbrev pub max_tokens : Option ℕ → Option ℕ → Option ℕ
max_tokens none b = b
max_tokens (some a) none = some a
max_tokens (some a) (some b) = if leb a b then some b else some a

-- The variables of the loop.
pub record Totals : Type 0 where
  pub gpus : List GpuDescriptor
  pub models : List ModelDescriptor
  pub max_context_tokens : Option ℕ
  pub supports_infer : Bool
  pub supports_chat_completions : Bool
  pub supports_responses : Bool
  pub supports_anthropic_messages : Bool
  pub supports_embeddings : Bool
  pub backends : List String

abbrev pub no_totals : Totals
no_totals = record {
  gpus = [];
  models = [];
  max_context_tokens = none;
  supports_infer = false;
  supports_chat_completions = false;
  supports_responses = false;
  supports_anthropic_messages = false;
  supports_embeddings = false;
  backends = [];
}

-- One turn of the loop; which models are new is seen by `first_of_each` at the end.
unfoldable pub add_capabilities : Totals → NodeCapabilities → Totals
add_capabilities totals capabilities = record {
  gpus = totals.gpus ++ capabilities.gpus;
  models = totals.models ++ capabilities.models;
  max_context_tokens = max_tokens totals.max_context_tokens capabilities.max_context_tokens;
  supports_infer = totals.supports_infer || capabilities.supports_infer;
  supports_chat_completions =
      totals.supports_chat_completions || capabilities.supports_chat_completions;
  supports_responses = totals.supports_responses || capabilities.supports_responses;
  supports_anthropic_messages =
      totals.supports_anthropic_messages || capabilities.supports_anthropic_messages;
  supports_embeddings = totals.supports_embeddings || capabilities.supports_embeddings;
  backends = insert_name (backend_name capabilities.backend) totals.backends;
}

unfoldable pub add_all : Totals → List NodeCapabilities → Totals
add_all totals [] = totals
add_all totals (capabilities ∷ rest) = add_all (add_capabilities totals capabilities) rest

abbrev pub listed : Option NodeCapabilities → List NodeCapabilities
listed none = []
listed (some capabilities) = capabilities ∷ []

unfoldable pub ready_capabilities :
    (enforcement : Option String) → List UpstreamProbe → List NodeCapabilities
ready_capabilities enforcement [] = []
ready_capabilities enforcement (probe ∷ probes) =
    let rest = ready_capabilities enforcement probes in
    if is_ready enforcement probe then listed probe.capabilities ++ rest else rest

abbrev pub json_number : ℕ → Value
json_number n = number (pos_int n)

abbrev pub status_text : Option HealthResponse → String
status_text none = "unreachable"
status_text (some health) = status_name health.status

-- The entries in the order of their keys.
unfoldable pub upstream_summary : UpstreamProbe → Fields
upstream_summary probe = with_capabilities probe.capabilities
  where
    with_capabilities : Option NodeCapabilities → Fields
    with_capabilities none = field "discovered" (bool probe.config.discovered) (
        field "name" (string probe.config.name) (
          field "status" (string (status_text probe.health))
            (field "url" (string probe.config.base_url) end)))
    with_capabilities (some capabilities) =
        field "backend" (string (backend_name capabilities.backend)) (
          field "discovered" (bool probe.config.discovered) (
            field "name" (string probe.config.name) (
              field "node_id" (string capabilities.node_id) (
                field "status" (string (status_text probe.health))
                  (field "url" (string probe.config.base_url) end)))))

abbrev summaries : List UpstreamProbe → Values
summaries [] = nil
summaries (probe ∷ probes) = cons (object (upstream_summary probe)) (summaries probes)

-- `version` is the version of the crate, and `active` the number of nodes that are discovered and active.
unfoldable pub aggregate_capabilities :
    (enforcement : Option String)
    → (version : String) → (active : ℕ) → RouterConfig
    → List UpstreamProbe
    → NodeCapabilities
aggregate_capabilities enforcement version active config probes =
    let totals = add_all no_totals (ready_capabilities enforcement probes) in
    record {
      api_version = "lmml-node-api/v1";
      lmml_version = version;
      node_id = config.router_id;
      node_name = config.router_name;
      public_url = config.public_url;
      roles = router ∷ [];
      tags = config.tags;
      privacy = privacy_tier config;
      backend = aggregate_backend totals.backends;
      gpus = totals.gpus;
      models = first_of_each [] totals.models;
      max_context_tokens = totals.max_context_tokens;
      supports_infer = totals.supports_infer;
      supports_chat_completions = totals.supports_chat_completions;
      supports_responses = totals.supports_responses;
      supports_anthropic_messages = totals.supports_anthropic_messages;
      supports_embeddings = totals.supports_embeddings;
      supports_server_control = false;
      auth_required = is_some (api_key config);
      llama_cpp_commit = none;
      agentq = none;
      extra =
          ("discovered_upstream_count", json_number active)
          ∷ ("ready_upstream_count", json_number (length (retain (is_ready enforcement) probes)))
          ∷ ("static_upstream_count", json_number (length config.upstreams))
          ∷ ("upstream_count", json_number (length probes))
          ∷ ("upstreams", array (summaries probes))
          ∷ [];
    }

-- `time_utc` is the time of the answer, and `uptime_s` the seconds since the start.
unfoldable pub health :
    (enforcement : Option String)
    → (time_utc : String) → (uptime_s : ℕ) → RouterConfig
    → List UpstreamProbe
    → HealthResponse
health enforcement time_utc uptime_s config probes =
    let ready_count = length (retain (is_ready enforcement) probes) in
    record {
      api_version = "lmml-node-api/v1";
      node_id = config.router_id;
      node_name = config.router_name;
      status = if ltb 0 ready_count then ready else degraded;
      time_utc = time_utc;
      uptime_s = uptime_s;
      llama_healthy = ltb 0 ready_count;
      active_model = none;
      message = some (
          String.◌++◌ "lmml-router active; " (
            String.◌++◌ (ascii_text (print_u64 ready_count)) (
              String.◌++◌ "/"
                (String.◌++◌ (ascii_text (print_u64 (length probes))) " upstream nodes ready"))));
    }
