-- ===== src/Router/Types.antt =====
-- The records and errors of crates/lmml-router/src/lib.rs. A socket address is its text.
use lmml.Base.{ℕ, String, Bool, Option, List}
use lmml.Api.{NodeCapabilities, HealthResponse, LoadResponse}

pub record UpstreamNodeConfig : Type 0 where
  pub name : String
  pub base_url : String
  pub api_key : Option String
  pub discovered : Bool

pub record RouterConfig : Type 0 where
  pub host : String
  pub port : ℕ
  pub router_id : String
  pub router_name : String
  pub public_url : Option String
  pub upstreams : List UpstreamNodeConfig
  pub discover_lan : Bool
  pub lan_discovery_addr : String
  pub discovered_node_ttl_ms : ℕ
  pub discovered_upstream_api_key : Option String
  pub proxy_timeout_ms : ℕ
  pub discovery_timeout_ms : ℕ
  pub api_key : Option String
  pub allow_unsafe_lan_without_auth : Bool
  pub tags : List String

pub record RouterCounters : Type 0 where
  pub running_by_upstream : List (String × ℕ)
  pub completed_requests : ℕ
  pub failed_requests : ℕ

pub record RouterCounterSnapshot : Type 0 where
  pub running_requests : ℕ
  pub completed_requests : ℕ
  pub failed_requests : ℕ

pub record UpstreamProbe : Type 0 where
  pub config : UpstreamNodeConfig
  pub health : Option HealthResponse
  pub approved_upstream : Bool
  pub capabilities : Option NodeCapabilities
  pub load : Option LoadResponse

-- `RouterConfigError`, but for the error of a socket address that cannot be parsed, which is the
-- standard library's.
pub data RouterConfigError : Type 0 where
  no_upstreams : RouterConfigError
  api_key_required_for_lan_discovery : RouterConfigError
  api_key_required_for_lan_bind : (host : String) → RouterConfigError
  invalid_upstream_spec : (spec : String) → RouterConfigError
  invalid_upstream_key_spec : (spec : String) → RouterConfigError
  unknown_upstream_key : (name : String) → RouterConfigError

-- `ApiFailure`, with the number of its HTTP status.
pub record ApiFailure : Type 0 where
  pub status : ℕ
  pub code : String
  pub message : String
  pub request_id : Option String
