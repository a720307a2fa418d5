-- ===== src/Router/Tests/Proxied.antt =====
-- A request that a router passes on, and what it says of its routes.
use lmml.Base.{
  ℕ, String, ◌≡◌, refl, ◌↔◌, true, none, some, [], ◌∷◌, ◌==◌, if◌then◌else◌, Result, ok, err, arith,
}
use lmml.Substrate.Disk.{Bytes}
use lmml.Substrate.Json.{Value, object, end}
use lmml.Router.Types.{UpstreamNodeConfig, RouterCounters, ApiFailure}
use lmml.Base.Text.{utf8}
use lmml.Base.Maps.{adjust, upsert}
use lmml.Router.Config.{api_key}
use lmml.Router.Access.{Headers, authorize, bearer_token}
use lmml.Router.Counters.{
  no_requests, increment_router_running, finish_router_request, upstream_running_requests,
}
use lmml.Router.Selection.{
  is_routable, min_by_key, load_key, requested_model, route_supported, select_upstream,
}
use lmml.Router.Aggregate.Capabilities.{aggregate_capabilities}
use lmml.Router.Aggregate.Routable.{aggregate_capabilities-routable}
use lmml.Router.Proxy.{
  InferRequest, AuthorizedBody, UpstreamRequest, UpstreamResponse, Sent, responded, Response,
  call_upstream, call_upstream_inner,
}
use lmml.Router.Proxy.Route.{choose_upstream, proxy_json_route}
use lmml.Router.Proxy.Balanced.{IsAccounted, proxy_json_route-IsAccounted}
use lmml.Router.Tests.{config, probes}

abbrev headers : Headers
headers name =
    if name == "authorization"
    then some "Bearer secret"
    else if name == "x-lmml-request-id"
    then some "r1"
    else none

abbrev chat : String
chat = "/v1/chat/completions"

abbrev to_bytes : ℕ → Result String Bytes
to_bytes limit = ok (1 ∷ [])

abbrev from_slice : Bytes → Result String Value
from_slice bytes = ok (object end)

abbrev no_infer : Value → Result String InferRequest
no_infer value = err "missing field"

abbrev body : AuthorizedBody
body = record { request_id = some "r1"; bytes = 1 ∷ [] }

abbrev reply : UpstreamResponse
reply = record { status = 200; content_type = none; upstream_node_id = some "n2"; bytes = 7 ∷ [] }

abbrev send : UpstreamRequest → Sent
send request = responded reply

abbrev passed_on : Result ApiFailure Response
passed_on = ok (record {
  status = 200;
  content_type = none;
  request_id = some "r1";
  node_id = some "n2";
  body = 7 ∷ [];
})

abbrev one_completed : RouterCounters
one_completed = record {
  running_by_upstream = ("n2", 0) ∷ [];
  completed_requests = 1;
  failed_requests = 0;
}

proxied :
    proxy_json_route
      (λ text. text)
      none
      from_slice
      no_infer
      send
      (λ c. c)
      no_requests
      chat
      config
      headers
      to_bytes
      no_requests
      probes
    ≡ (passed_on, one_completed)
unfolding proxy_json_route authorize api_key utf8 bearer_token select_upstream min_by_key
    is_routable requested_model load_key call_upstream call_upstream_inner finish_router_request
    adjust increment_router_running upsert
proxied = refl

no_open_calls : (upstream : String) → upstream_running_requests no_requests upstream ≡ 0
unfolding upstream_running_requests
no_open_calls upstream = refl

proxy_json_route-IsAccounted_example :
    ((q : String)
      → upstream_running_requests one_completed q ≡ upstream_running_requests no_requests q)
    × IsAccounted
        (λ text. text)
        none
        from_slice
        no_infer
        send
        no_requests
        chat
        (choose_upstream
          (λ text. text)
          none
          from_slice
          no_infer
          config
          headers
          to_bytes
          chat
          no_requests
          probes)
        passed_on
        one_completed
proxy_json_route-IsAccounted_example =
    proxy_json_route-IsAccounted (λ text. text) none from_slice no_infer send no_requests chat
      (omega arith) (omega arith) (λ upstream. omega (arith, no_open_calls upstream)) config headers
      to_bytes no_requests probes passed_on one_completed proxied

aggregate_capabilities-routable_example :
    (route_supported (aggregate_capabilities none "0.1.0" 0 config probes) chat ≡ true) ↔ (
      (upstream : UpstreamNodeConfig) × (select_upstream
          (λ text. text)
          none
          no_requests
          chat
          none
          none
          probes
        ≡ ok upstream))
aggregate_capabilities-routable_example =
    aggregate_capabilities-routable none "0.1.0" 0 config chat (λ text. text) no_requests none
      probes
