-- ===== src/Router/Tests.antt =====
-- A router with two configured nodes, on which the theorems about crates/lmml-router are tried.
mod Routing
pub mod Attested
mod Proxied
use lmml.Base.{ℕ, ◌-◌, ◌/◌, String, true, false, none, some, List, [], ◌∷◌}
use lmml.Api.{cuda, lan_only, ready, NodeCapabilities, HealthResponse, LoadResponse}
use lmml.Router.Types.{UpstreamNodeConfig, RouterConfig, UpstreamProbe}

abbrev pub static_node : String → UpstreamNodeConfig
static_node name = record {
  name = name;
  base_url = "http://node:8101";
  api_key = some "key";
  discovered = false;
}

abbrev pub config : RouterConfig
config = record {
  host = "0.0.0.0";
  port = 8100;
  router_id = "router";
  router_name = "router";
  public_url = none;
  upstreams = static_node "n1" ∷ static_node "n2" ∷ [];
  discover_lan = true;
  lan_discovery_addr = "239.77.77.11:8177";
  discovered_node_ttl_ms = 30000;
  discovered_upstream_api_key = some "probe";
  proxy_timeout_ms = 7200000;
  discovery_timeout_ms = 1500;
  api_key = some "secret";
  allow_unsafe_lan_without_auth = false;
  tags = [];
}

abbrev pub capable : NodeCapabilities
capable = record {
  api_version = "lmml-node-api/v1";
  lmml_version = "0.1.0";
  node_id = "n1";
  node_name = "n1";
  public_url = none;
  roles = [];
  tags = [];
  privacy = lan_only;
  backend = cuda;
  gpus = [];
  models = [];
  max_context_tokens = none;
  supports_infer = true;
  supports_chat_completions = true;
  supports_responses = true;
  supports_anthropic_messages = true;
  supports_embeddings = false;
  supports_server_control = false;
  auth_required = true;
  llama_cpp_commit = none;
  agentq = none;
  extra = [];
}

abbrev pub load_of : ℕ → LoadResponse
load_of running = record {
  node_id = "n1";
  status = ready;
  cpu_usage_pct = record { bits = 0 };
  memory_total_mb = 0;
  memory_used_mb = 0;
  gpus = [];
  running_requests = running;
  completed_requests = 0;
  failed_requests = 0;
  tokens_in_total = 0;
  tokens_out_total = 0;
}

abbrev pub healthy : HealthResponse
healthy = record {
  api_version = "lmml-node-api/v1";
  node_id = "n1";
  node_name = "n1";
  status = ready;
  time_utc = "";
  uptime_s = 1;
  llama_healthy = true;
  active_model = none;
  message = none;
}

abbrev pub probe : String → ℕ → UpstreamProbe
probe name running = record {
  config = static_node name;
  health = some healthy;
  approved_upstream = false;
  capabilities = some capable;
  load = some (load_of running);
}

abbrev pub probes : List UpstreamProbe
probes = probe "n1" 3 ∷ probe "n2" 1 ∷ []
