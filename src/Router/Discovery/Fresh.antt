-- ===== src/Router/Discovery/Fresh.antt =====
-- Which discovered nodes become upstreams of the router: crates/lmml-router/src/discovery.rs and
-- `effective_upstreams` of crates/lmml-router/src/lib.rs.
use lmml.Base.{ℕ, String, ◌≡◌, [], ok}
use lmml.Api.{LanNodeAdvertisement}
use lmml.Router.Discovery.{
  DiscoveredNode, DiscoveredNodeTable, validate_lan_advertisement, record_advertisement,
  prune_expired,
}

-- The tables that the router can reach.
pub data Reached : DiscoveredNodeTable → Type 0 where
  nothing_seen : Reached []
  seen :
      {nodes : DiscoveredNodeTable}
      → Reached nodes
      → (advertisement : LanNodeAdvertisement) (now : ℕ)
      → Reached (record_advertisement nodes advertisement now).1
  pruned :
      {nodes : DiscoveredNodeTable}
      → Reached nodes
      → (now ttl : ℕ) → Reached (prune_expired nodes now ttl)

-- An entry is what a valid advertisement left under its own name.
abbrev IsValid : String × DiscoveredNode → Type 0
IsValid (node_id, node_seen) =
    (validate_lan_advertisement node_seen.advertisement ≡ ok tt)
    × (node_id ≡ node_seen.advertisement.node_id)

module _ (entry : DiscoveredNode) (key : String) where
  abbrev replace : DiscoveredNode → DiscoveredNode
  replace old = entry
