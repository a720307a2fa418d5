-- ===== src/Router/Discovery.antt =====
-- The table of the nodes that advertised themselves on the LAN: crates/lmml-router/src/discovery.rs,
-- and the upstreams that `RouterAppState` of crates/lmml-router/src/lib.rs makes of it. An instant is
-- a number of nanoseconds, and the lock is not poisoned.
pub mod Fresh
use lmml.Base.{
  ℕ, zero, ◌+◌, ◌-◌, ◌*◌, ◌/◌, String, Bool, true, false, not, Option, none, some, List, ◌++◌, map,
  leb, if◌then◌else◌, is_none, length, retain, Result, ok, err, ◌>>=◌, ◌>>◌, reject_if, ok_or,
}
use lmml.Base.Maps.{Map, upsert}
use lmml.Base.Text.{mem_text}
use lmml.Api.{LanNodeAdvertisement, is_current_lmml_advertisement}
use lmml.Router.Types.{UpstreamNodeConfig, RouterConfig}
use lmml.Router.Config.{api_key, discovered_upstream_api_key}
use lmml.Router.Specs.{looks_like_http_url, new_upstream}

pub data LanAdvertisementParseError : Type 0 where
  invalid_json unsupported_advertisement unauthenticated_node missing_public_url :
      LanAdvertisementParseError

pub record DiscoveredNode : Type 0 where
  pub advertisement : LanNodeAdvertisement
  pub last_seen : ℕ

abbrev pub DiscoveredNodeTable : Type 0
DiscoveredNodeTable = Map DiscoveredNode

unfoldable pub validate_lan_advertisement :
    LanNodeAdvertisement → Result LanAdvertisementParseError (Unit {0})
validate_lan_advertisement advertisement = do
  reject_if (not (is_current_lmml_advertisement advertisement)) unsupported_advertisement
  reject_if (not advertisement.auth_required) unauthenticated_node
  reject_if (not (looks_like_http_url advertisement.public_url)) missing_public_url

-- `serde_json::from_slice` is a parameter.
unfoldable pub parse_lan_advertisement :
    (from_slice : List ℕ → Option LanNodeAdvertisement)
    → List ℕ
    → Result LanAdvertisementParseError LanNodeAdvertisement
parse_lan_advertisement from_slice bytes = do
  advertisement ← ok_or (from_slice bytes) invalid_json
  validate_lan_advertisement advertisement
  ok advertisement

abbrev pub insert_seen :
    DiscoveredNodeTable → LanNodeAdvertisement → (now : ℕ) → DiscoveredNodeTable
insert_seen nodes advertisement now =
    let entry : DiscoveredNode = record { advertisement = advertisement; last_seen = now } in
    upsert (λ old. entry) entry advertisement.node_id nodes

abbrev pub record_by :
    Result LanAdvertisementParseError (Unit {0})
    → DiscoveredNodeTable
    → LanNodeAdvertisement
    → (now : ℕ) → Bool × DiscoveredNodeTable
record_by (err error) nodes advertisement now = (false, nodes)
record_by (ok valid) nodes advertisement now = (true, insert_seen nodes advertisement now)

-- Whether the node was recorded, and the table.
unfoldable pub record_advertisement :
    DiscoveredNodeTable → LanNodeAdvertisement → (now : ℕ) → Bool × DiscoveredNodeTable
record_advertisement nodes advertisement now =
    record_by (validate_lan_advertisement advertisement) nodes advertisement now

-- `now.duration_since(last_seen)` is zero where `last_seen` is later.
abbrev pub is_fresh : (now ttl : ℕ) → String × DiscoveredNode → Bool
is_fresh now ttl (node_id, node_seen) = leb (now - node_seen.last_seen) ttl

unfoldable pub prune_expired : DiscoveredNodeTable → (now ttl : ℕ) → DiscoveredNodeTable
prune_expired nodes now ttl = retain (is_fresh now ttl) nodes

abbrev pub upstream_of : (api_key : String) → String × DiscoveredNode → UpstreamNodeConfig
upstream_of api_key (node_id, node_seen) =
    record (new_upstream node_seen.advertisement.node_id node_seen.advertisement.public_url) {
      api_key = some api_key;
      discovered = true;
    }

-- The upstreams, and the table without the expired nodes.
unfoldable pub discovered_upstreams :
    DiscoveredNodeTable
    → (now ttl : ℕ) → (api_key : String) → List UpstreamNodeConfig × DiscoveredNodeTable
unfolding prune_expired
discovered_upstreams nodes now ttl api_key =
    let active = prune_expired nodes now ttl in (map (upstream_of api_key) active, active)

unfoldable pub active_len : DiscoveredNodeTable → (now ttl : ℕ) → ℕ × DiscoveredNodeTable
unfolding prune_expired
active_len nodes now ttl = let active = prune_expired nodes now ttl in (length active, active)

-- Milliseconds as nanoseconds.
unfoldable pub discovered_node_ttl : RouterConfig → ℕ
discovered_node_ttl config = config.discovered_node_ttl_ms * 1000000

unfoldable pub record_discovered_advertisement :
    RouterConfig
    → DiscoveredNodeTable
    → LanNodeAdvertisement
    → (now : ℕ) → Bool × DiscoveredNodeTable
unfolding record_advertisement
record_discovered_advertisement config nodes advertisement now =
    if is_none (discovered_upstream_api_key config)
    then (false, nodes)
    else record_advertisement nodes advertisement now

abbrev pub names : List UpstreamNodeConfig → List String
names upstreams = map (λ (u : UpstreamNodeConfig). u.name) upstreams

abbrev pub upstreams_with :
    (default_key : Option String)
    → RouterConfig
    → DiscoveredNodeTable
    → (now : ℕ) → List UpstreamNodeConfig × DiscoveredNodeTable
upstreams_with none config nodes now = (config.upstreams, nodes)
upstreams_with (some api_key) config nodes now =
    let (found, active) = discovered_upstreams nodes now (discovered_node_ttl config) api_key in
    (
      config.upstreams
          ++ retain (λ (u : UpstreamNodeConfig). not (mem_text u.name (names config.upstreams)))
              found,
      active,
    )

unfoldable pub effective_upstreams :
    RouterConfig → DiscoveredNodeTable → (now : ℕ) → List UpstreamNodeConfig × DiscoveredNodeTable
effective_upstreams config nodes now =
    upstreams_with (discovered_upstream_api_key config) config nodes now
