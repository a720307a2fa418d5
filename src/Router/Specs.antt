-- ===== src/Router/Specs.antt =====
-- Upstream specifications and keys: `parse_upstream_spec`, `apply_upstream_key_specs` and the handling
-- of URLs in crates/lmml-router/src/lib.rs.
pub mod Keys
use Prim.Native.String
use Prim.Native.Char.{code}
use lmml.Base.{
  ℕ, ◌+◌, ◌-◌, ◌/◌, String, Bool, false, not, ◌||◌, Option, none, some, List, [], ◌∷◌, ◌++◌, ◌==◌,
  eqb, if◌then◌else◌, find, there, Result, ok, err,
}
use lmml.Base.Text.{
  codes, has_prefix, drop_start, drop_end, trim, split_once, starts_with, strip_prefix,
}
use lmml.Router.Types.{
  UpstreamNodeConfig, RouterConfigError, invalid_upstream_spec, invalid_upstream_key_spec,
  unknown_upstream_key,
}

unfoldable pub looks_like_http_url : String → Bool
unfolding has_prefix
looks_like_http_url value = starts_with "http://" value || starts_with "https://" value

abbrev is_slash : ℕ → Bool
is_slash c = eqb c b'/'

unfoldable pub normalize_base_url : String → String
unfolding trim drop_end
normalize_base_url url = drop_end is_slash (trim url)

-- `UpstreamNodeConfig::new(name, base_url)`
abbrev pub new_upstream : String → String → UpstreamNodeConfig
new_upstream name base_url = record {
  name = name;
  base_url = normalize_base_url base_url;
  api_key = none;
  discovered = false;
}

unfoldable pub upstream_url : String → String → String
unfolding normalize_base_url drop_start
upstream_url base_url path =
    String.◌++◌ (normalize_base_url base_url) (String.◌++◌ "/" (drop_start is_slash path))

-- `text.trim_start_matches(prefix)`: the prefix as often as it stands there. Each round takes away a
-- character of the prefix at least, so a round for each character of the text is enough.
abbrev trim_prefix_rounds : List ℕ → (prefix text : String) → String
trim_prefix_rounds [] prefix text = text
trim_prefix_rounds (c ∷ rounds) prefix text = elim (strip_prefix prefix text) [
  | none ↦ text
  | some rest ↦ trim_prefix_rounds rounds prefix rest
]

abbrev trim_prefix : (prefix text : String) → String
trim_prefix prefix text = trim_prefix_rounds (codes text) prefix text

-- `text.replace([':', '/', '.'], "-")`
unfoldable pub replace_separators : String → String
replace_separators String.[] = String.[]
replace_separators (String.◌∷◌ c s) =
    let rest = replace_separators s in
    if eqb (code c) b':' || eqb (code c) b'/' || eqb (code c) b'.'
    then String.◌++◌ "-" rest
    else String.◌∷◌ c rest

unfoldable pub inferred_upstream_name : String → String
unfolding trim drop_end strip_prefix replace_separators
inferred_upstream_name url =
    replace_separators
      (drop_end is_slash (trim_prefix "https://" (trim_prefix "http://" (trim url))))

abbrev named_upstream : String → String × String → Result RouterConfigError UpstreamNodeConfig
named_upstream spec (name, url) =
    if (trim name == "") || not (looks_like_http_url (trim url))
    then err (invalid_upstream_spec spec)
    else ok (new_upstream (trim name) (trim url))

abbrev unnamed_upstream : String → String → Result RouterConfigError UpstreamNodeConfig
unnamed_upstream spec trimmed =
    if not (looks_like_http_url trimmed)
    then err (invalid_upstream_spec spec)
    else ok (new_upstream (inferred_upstream_name trimmed) trimmed)

unfoldable pub parse_upstream_spec : String → Result RouterConfigError UpstreamNodeConfig
unfolding split_once trim looks_like_http_url normalize_base_url inferred_upstream_name
parse_upstream_spec spec =
    if trim spec == ""
    then err (invalid_upstream_spec spec)
    else (elim (split_once b'=' (trim spec)) [
      | some parts ↦ named_upstream spec parts
      | none ↦ unnamed_upstream spec (trim spec)
    ])

-- `upstreams.iter_mut().find(|upstream| upstream.name == name)`, and the key written there; `none`
-- where no upstream has the name.
unfoldable pub set_key :
    (name key : String) → List UpstreamNodeConfig → Option (List UpstreamNodeConfig)
set_key name key [] = none
set_key name key (upstream ∷ rest) =
    let others = set_key name key rest in
    if upstream.name == name
    then some (record upstream { api_key = some key } ∷ rest)
    else elim others [ none ↦ none | some changed ↦ some (upstream ∷ changed) ]

-- The key of a specification and the name that it stands for, or the error.
unfoldable pub parse_key_spec : String → Result RouterConfigError (String × String)
parse_key_spec spec = elim (split_once b'=' spec) [
  | none ↦ err (invalid_upstream_key_spec spec)
  | some parts ↦
      if (trim parts.0 == "") || (trim parts.1 == "")
      then err (invalid_upstream_key_spec spec)
      else ok (trim parts.0, trim parts.1)
]

-- The answer, and the upstreams as they are then: the keys set before an error stay.
abbrev pub Applied : Type 0
Applied = Result RouterConfigError (Option String) × List UpstreamNodeConfig

abbrev pub apply_one :
    List UpstreamNodeConfig
    → (default_key : Option String) → (name key : String)
    → (Option String → List UpstreamNodeConfig → Applied)
    → Applied
apply_one upstreams default_key name key next =
    if name == "default" then next (some key) upstreams else (elim (set_key name key upstreams) [
      | none ↦ (err (unknown_upstream_key name), upstreams)
      | some changed ↦ next default_key changed
    ])

abbrev pub apply_parsed :
    Result RouterConfigError (String × String)
    → (default_key : Option String) → List UpstreamNodeConfig
    → (Option String → List UpstreamNodeConfig → Applied)
    → Applied
apply_parsed (err error) default_key upstreams next = (err error, upstreams)
apply_parsed (ok (name, key)) default_key upstreams next =
    apply_one upstreams default_key name key next

unfoldable pub apply_from :
    List String → (default_key : Option String) → List UpstreamNodeConfig → Applied
apply_from [] default_key upstreams = (ok default_key, upstreams)
apply_from (spec ∷ specs) default_key upstreams =
    apply_parsed (parse_key_spec spec) default_key upstreams (apply_from specs)

unfoldable pub apply_upstream_key_specs : List UpstreamNodeConfig → List String → Applied
apply_upstream_key_specs upstreams specs = apply_from specs none upstreams
