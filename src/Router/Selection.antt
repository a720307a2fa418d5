-- ===== src/Router/Selection.antt =====
-- The choice of an upstream: `UpstreamProbe::is_ready`, `route_supported`, `model_supported`,
-- `requested_model` and `select_upstream` of crates/lmml-router/src/lib.rs. The probes are the
-- answers of the upstreams, in the order of the upstreams; `lowercase` is `str::to_lowercase`.
pub mod Best
use Prim.Native.String
use lmml.Base.{
  ℕ, ◌+◌, ◌-◌, ◌/◌, ◌^◌, String, Bool, true, false, not, ◌&&◌, ◌||◌, Option, none, some, List, [],
  ◌∷◌, ◌==◌, leb, if◌then◌else◌, is_empty, any, retain, Result, ok, err,
}
use lmml.Base.Text.{codes, is_blank, contains, eq_ignore_ascii_case}
use lmml.Substrate.Json.{Value, object, Fields, end, field, as_str}
use lmml.Api.{
  router, ready, ModelDescriptor, NodeCapabilities, HealthResponse, LoadResponse, status_eq,
}
use lmml.Router.Types.{UpstreamNodeConfig, RouterCounters, UpstreamProbe, ApiFailure}
use lmml.Router.Counters.{upstream_running_requests}

abbrev pub u32_max : ℕ
u32_max = 2 ^ 32 - 1

-- The value of `LMML_APPROVAL_ENFORCEMENT`, if it is set and a text.
unfoldable pub approval_enforcement_enabled : Option String → Bool
approval_enforcement_enabled none = false
approval_enforcement_enabled (some value) = (value == "1") || (value == "true") || (value == "yes")

abbrev pub health_ready : Option HealthResponse → Bool
health_ready none = false
health_ready (some health) = status_eq health.status ready && health.llama_healthy

abbrev pub requires_auth : Option NodeCapabilities → Bool
requires_auth none = false
requires_auth (some capabilities) = capabilities.auth_required

unfoldable pub is_ready : (enforcement : Option String) → UpstreamProbe → Bool
unfolding approval_enforcement_enabled
is_ready enforcement probe =
    health_ready probe.health
    && (not probe.config.discovered || requires_auth probe.capabilities)
    && (not (approval_enforcement_enabled enforcement) || probe.approved_upstream)

abbrev load_requests : Option LoadResponse → ℕ
load_requests none = u32_max
load_requests (some load) = load.running_requests

unfoldable pub running_requests : UpstreamProbe → ℕ
running_requests probe = load_requests probe.load

unfoldable pub route_supported : NodeCapabilities → String → Bool
route_supported capabilities path =
    if path == "/v1/infer"
    then capabilities.supports_infer
    else if path == "/v1/chat/completions"
    then capabilities.supports_chat_completions
    else if path == "/v1/responses"
    then capabilities.supports_responses
    else if path == "/v1/messages"
    then capabilities.supports_anthropic_messages
    else if path == "/v1/embeddings"
    then capabilities.supports_embeddings
    else false

unfoldable pub is_named : (lowercase : String → String) → String → ModelDescriptor → Bool
unfolding contains
is_named lowercase model candidate =
    eq_ignore_ascii_case candidate.id model
    || eq_ignore_ascii_case candidate.name model
    || any (λ alias. eq_ignore_ascii_case alias model) candidate.aliases
    || contains (codes (lowercase model)) (codes (lowercase candidate.id))
    || contains (codes (lowercase model)) (codes (lowercase candidate.name))

unfoldable pub model_supported :
    (lowercase : String → String) → NodeCapabilities → Option String → Bool
unfolding is_named
model_supported lowercase capabilities none = true
model_supported lowercase capabilities (some model) =
    is_empty capabilities.models || any (is_named lowercase model) capabilities.models

-- `value.get(key)`: of an object; a missing key and another value have none.
abbrev get_field : String → Fields → Option Value
get_field key end = none
get_field key (field k value rest) = if k == key then some value else get_field key rest

abbrev pub get : String → Value → Option Value
get key (object fields) = get_field key fields
get key _ = none

abbrev text_of : Option Value → Option String
text_of none = none
text_of (some value) = as_str value

abbrev not_blank : Option String → Option String
not_blank none = none
not_blank (some model) = if is_blank model then none else some model

abbrev pub is_route : String → Bool
is_route path =
    (path == "/v1/infer")
    || (path == "/v1/chat/completions")
    || (path == "/v1/responses")
    || (path == "/v1/messages")
    || (path == "/v1/embeddings")

unfoldable pub requested_model : String → Value → Option String
unfolding is_blank
requested_model path value = if is_route path then not_blank (text_of (get "model" value)) else none

-- The three filters.
abbrev supports :
    (lowercase : String → String)
    → (path : String) → (model : Option String) → Option NodeCapabilities
    → Bool
supports lowercase path model none = false
supports lowercase path model (some capabilities) =
    route_supported capabilities path && model_supported lowercase capabilities model

unfoldable pub is_routable :
    (lowercase : String → String)
    → (enforcement : Option String) → (path : String) → (model : Option String) → UpstreamProbe
    → Bool
unfolding is_ready route_supported model_supported
is_routable lowercase enforcement path model probe =
    is_ready enforcement probe && supports lowercase path model probe.capabilities

-- `iterator.min_by_key(key)`: the first of the elements with the smallest key.
unfoldable pub min_by_key {ℓ} : {A : Type ℓ} → (A → ℕ) → List A → Option A
min_by_key key [] = none
min_by_key key (x ∷ xs) = elim (min_by_key key xs) [
  | none ↦ some x
  | some y ↦ if leb (key x) (key y) then some x else some y
]

-- The load of a probe: what the node says, and what this router has sent to it.
unfoldable pub load_key : RouterCounters → UpstreamProbe → ℕ
unfolding running_requests upstream_running_requests
load_key counters probe =
    running_requests probe + upstream_running_requests counters probe.config.name

abbrev pub no_routable_upstream : Option String → ApiFailure
no_routable_upstream request_id = record {
  status = 503;
  code = "no_routable_upstream";
  message = "no ready LMML upstream supports this route and model";
  request_id = request_id;
}

abbrev chosen : Option UpstreamProbe → Option String → Result ApiFailure UpstreamNodeConfig
chosen none request_id = err (no_routable_upstream request_id)
chosen (some probe) request_id = ok probe.config

unfoldable pub select_upstream :
    (lowercase : String → String)
    → (enforcement : Option String) → RouterCounters
    → (path : String) → (model request_id : Option String) → List UpstreamProbe
    → Result ApiFailure UpstreamNodeConfig
select_upstream lowercase enforcement counters path model request_id probes =
    chosen
      (min_by_key (load_key counters)
        (retain (is_routable lowercase enforcement path model) probes))
      request_id
