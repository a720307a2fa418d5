-- ===== src/Router/Config.antt =====
-- The configuration of the router: `RouterConfig::validate` and the keys, in
-- crates/lmml-router/src/lib.rs.
use lmml.Base.{
  String, ◌≡◌, ◌≢◌, ◌↔◌, ◌⊎◌, inl, inr, Bool, true, not, ◌&&◌, ◌||◌, Option, none, some, [], arith,
  ◌==◌, if◌then◌else◌, Bool-cases, Option-cases, is_none, is_empty, List-cases, Result, ok, ◌>>◌,
  reject_if,
}
use lmml.Base.Text.{is_blank}
use lmml.Api.{PrivacyTier, lan_only, localhost_only}
use lmml.Router.Types.{
  RouterConfig, RouterConfigError, no_upstreams, api_key_required_for_lan_discovery,
  api_key_required_for_lan_bind,
}

-- `.filter(|api_key| !api_key.trim().is_empty())`
unfoldable pub non_blank : Option String → Option String
unfolding is_blank
non_blank none = none
non_blank (some key) = if is_blank key then none else some key

unfoldable pub api_key : RouterConfig → Option String
unfolding non_blank
api_key config = non_blank config.api_key

unfoldable pub discovered_upstream_api_key : RouterConfig → Option String
unfolding non_blank
discovered_upstream_api_key config = non_blank config.discovered_upstream_api_key

unfoldable pub is_local_bind : String → Bool
is_local_bind host = (host == "127.0.0.1") || (host == "::1") || (host == "localhost")

unfoldable pub privacy_tier : RouterConfig → PrivacyTier
unfolding is_local_bind
privacy_tier config = if is_local_bind config.host then localhost_only else lan_only

unfoldable pub validate : RouterConfig → Result RouterConfigError (Unit {0})
validate config = do
  reject_if (is_empty config.upstreams && not config.discover_lan) no_upstreams
  reject_if (config.discover_lan && is_none (discovered_upstream_api_key config))
      api_key_required_for_lan_discovery
  reject_if
      (not (is_local_bind config.host)
        && is_none (api_key config)
        && not config.allow_unsafe_lan_without_auth)
      (api_key_required_for_lan_bind config.host)

-- A configuration is accepted exactly where it can find an upstream, would call the nodes that it
-- discovers with a key, and does not serve the LAN without a key unless told to.
pub validate_iff :
    (config : RouterConfig)
    → (validate config ≡ ok tt) ↔ (
        ((config.upstreams ≢ []) ⊎ (config.discover_lan ≡ true))
        × (config.discover_lan ≡ true → discovered_upstream_api_key config ≢ none)
        × ((is_local_bind config.host ≡ true)
            ⊎ ((api_key config ≢ none) ⊎ (config.allow_unsafe_lan_without_auth ≡ true))))
unfolding validate
validate_iff config = (forth, back)
  where
    forth :
        validate config ≡ ok tt
        → ((config.upstreams ≢ []) ⊎ (config.discover_lan ≡ true))
          × (config.discover_lan ≡ true → discovered_upstream_api_key config ≢ none)
          × ((is_local_bind config.host ≡ true)
              ⊎ ((api_key config ≢ none) ⊎ (config.allow_unsafe_lan_without_auth ≡ true)))
    forth h = (
      (elim (List-cases config.upstreams) [
        | inl e ↦ inr (ground (arith, h, e))
        | inr (x, xs, e) ↦ inl (λ f. ground (arith, e, f))
      ]),
      (λ l e. ground (arith, h, l, e)),
      (elim (Bool-cases (is_local_bind config.host)) [
        | inl e ↦ inl e
        | inr e ↦ inr (elim (Option-cases (api_key config)) [
          | inl f ↦ inr (ground (arith, h, e, f))
          | inr (k, f) ↦ inl (λ g. ground (arith, f, g))
        ])
      ]),
    )

    back :
        ((config.upstreams ≢ []) ⊎ (config.discover_lan ≡ true))
          × (config.discover_lan ≡ true → discovered_upstream_api_key config ≢ none)
          × ((is_local_bind config.host ≡ true)
              ⊎ ((api_key config ≢ none) ⊎ (config.allow_unsafe_lan_without_auth ≡ true)))
        → validate config ≡ ok tt
    back (found, keyed, safe) = elim (Option-cases (discovered_upstream_api_key config)) [
      | inl e ↦ elim (Option-cases (api_key config)) [
        | inl f ↦ ground (arith, found, keyed, safe, e, f)
        | inr (k, f) ↦ ground (arith, found, keyed, safe, e, f)
      ]
      | inr (k, e) ↦ elim (Option-cases (api_key config)) [
        | inl f ↦ ground (arith, found, keyed, safe, e, f)
        | inr (l, f) ↦ ground (arith, found, keyed, safe, e, f)
      ]
    ]
