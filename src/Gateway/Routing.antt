-- ===== src/Gateway/Routing.antt =====
-- Hosts, routes and paths: `RouteInfo`, `bypass_path_matches`, `normalize_host` and
-- `host_is_routed_raw` of gateway/src/proxy.rs, `BypassPath` of gateway/src/config.rs, and the
-- lookup of a route by host that gateway/src/flow.rs and gateway/src/proxy.rs write out each time.
-- `mirror`, header manipulation and backend TLS are left out of `RouteInfo`: nothing modelled reads
-- them. Header values are ASCII (`HeaderValue::to_str`), so lower case is ASCII lower case.
pub mod Laws
use volta_gateway.Prelude.{
  ℕ, zero, suc, ◌+◌, Bool, true, false, ◌&&◌, Option, none, some, List, [], ◌∷◌, ◌++◌, map, leb,
  ◌==◌, if◌then◌else◌, or_else, and_then, is_some, Text, text, text_eq, text_is_eq, strip_prefix,
  starts_with, ends_with_byte, lower_byte,
}
use volta_gateway.Prelude.Dict.{Dict, get, contains_key}
use volta_gateway.Gateway.Rules.{AuthRule}

pub record BypassPath : Type 0 where
  pub prefix : Text
  pub backend : Option Text

-- The part of `CacheConfig` (gateway/src/cache.rs) that a route carries.
pub record CacheConfig : Type 0 where
  pub enabled : Bool
  pub ttl_secs : ℕ
  pub methods : List Text
  pub max_body_size : ℕ
  pub ignore_query : Bool

pub record RouteInfo : Type 0 where
  pub backends : List Text
  pub weights : List ℕ
  pub app_id : Option Text
  pub min_role : Option Text
  pub is_public : Bool
  pub soft_auth : Bool
  pub bypass_paths : List BypassPath
  pub auth_rules : List AuthRule
  pub path_prefix : Option Text
  pub strip_prefix : Option Text
  pub add_prefix : Option Text
  pub geo_allowlist : List Text
  pub geo_denylist : List Text
  pub timeout_secs : Option ℕ
  pub cache : Option CacheConfig

abbrev pub RoutingTable : Type 0
RoutingTable = Dict Text RouteInfo

-- `str::split_once` at one byte.
unfoldable pub split_once : ℕ → Text → Option (Text × Text)
split_once b [] = none
split_once b (c ∷ s) =
    let rest = and_then (split_once b s) (λ p. some (c ∷ p.0, p.1)) in
    if c == b then some ([], s) else rest

-- `str::split(b).next()`: the text up to the first `b`, or all of it.
unfoldable pub split_first : ℕ → Text → Text
split_first b [] = []
split_first b (c ∷ s) = let rest = split_first b s in if c == b then [] else c ∷ rest

-- The host's own entry, or that of `*.` and what follows its first dot.
unfoldable pub find_route : RoutingTable → Text → Option RouteInfo
find_route routing host =
    or_else (get host routing)
      (and_then (split_once b'.' host) (λ p. get (text "*." ++ p.1) routing))

unfoldable pub bypass_path_matches : Text → Text → Bool
bypass_path_matches path prefix =
    if text_eq path prefix
    then true
    else if ends_with_byte b'/' prefix
    then starts_with prefix path
    else elim (strip_prefix prefix path) [
      | none ↦ false
      | some remainder ↦ starts_with (text "/") remainder
    ]

unfoldable pub normalize_host : Text → Text
normalize_host raw =
    map lower_byte (
      if starts_with (text "[") raw then split_first b']' raw ++ text "]" else split_first b':' raw)

unfoldable pub host_is_routed_raw : Option Text → RoutingTable → Bool
host_is_routed_raw none routing = false
host_is_routed_raw (some raw) routing =
    let host = normalize_host raw in if text_eq host [] then false else contains_key host routing
