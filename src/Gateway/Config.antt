-- ===== src/Gateway/Config.antt =====
-- The configuration of the gateway: gateway/src/config.rs, as far as its checks and the tables of
-- routes read it. Hosts and roles are ASCII. Mirrors, header manipulation and backend TLS are left
-- out of a route, as they are of `RouteInfo`.
pub mod Checks
pub mod Laws
pub mod Tables
use volta_gateway.Prelude.{
  ℕ, Bool, true, false, not, ◌&&◌, Option, none, some, List, [], ◌∷◌, map, any, is_empty,
  if◌then◌else◌, unwrap_or, or_else, and_then, is_some, Text, text, text_eq, text_is_eq, to_lower,
}
use volta_gateway.Prelude.Dict.{Dict, insert}
use volta_gateway.Gateway.Rules.{AuthRule}
use volta_gateway.Gateway.Routing.{BypassPath, CacheConfig, RouteInfo, RoutingTable}
use volta_gateway.Gateway.Assertion.{legacy_key_id}

pub record WeightedBackend : Type 0 where
  pub url : Text
  pub weight : ℕ

pub record RouteEntry : Type 0 where
  pub host : Text
  pub backend : Option Text
  pub backends : List WeightedBackend
  pub app_id : Option Text
  pub min_role : Option Text
  pub ip_allowlist : List Text
  pub cors_origins : List Text
  pub path_prefix : Option Text
  pub strip_prefix : Option Text
  pub add_prefix : Option Text
  pub geo_allowlist : List Text
  pub geo_denylist : List Text
  pub is_public : Bool
  pub soft_auth : Bool
  pub auth_bypass_paths : List BypassPath
  pub auth_rules : List AuthRule
  pub timeout_secs : Option ℕ
  pub cache : Option CacheConfig

pub record TlsConfig : Type 0 where
  pub domains : List Text
  pub contact_email : Text
  pub port : ℕ
  pub challenge : Text
  pub dns_provider : Option Text
  pub dns_api_token : Option Text

pub record L4ProxyEntry : Type 0 where
  pub listen_port : ℕ
  pub protocol : Text
  pub backend : Text
  pub ip_allowlist : List Text

pub record PluginConfig : Type 0 where
  pub name : Text
  pub plugin_type : Text
  pub path : Option Text
  pub config : Dict Text Text
  pub phase : Text

-- The part of `AuthConfig` about assertions.
pub record AuthConfig : Type 0 where
  pub gateway_assertion_secret : Option Text
  pub gateway_assertion_key_id : Option Text
  pub gateway_assertion_previous_key_id : Option Text
  pub gateway_assertion_previous_secret : Option Text

pub record GatewayConfig : Type 0 where
  pub config_version : ℕ
  pub port : ℕ
  pub force_https : Bool
  pub auth : AuthConfig
  pub routing : List RouteEntry
  pub tls : Option TlsConfig
  pub l4_proxy : List L4ProxyEntry
  pub plugins : List PluginConfig

-- The environment variables that the checks read.
pub record Env : Type 0 where
  pub assertion_secret : Option Text
  pub assertion_key_id : Option Text
  pub previous_key_id : Option Text
  pub previous_secret : Option Text
  pub cf_dns_api_token : Option Text

-- `filter(|value| !value.is_empty())`.
abbrev pub nonempty : Option Text → Option Text
nonempty value = and_then value (λ v. if is_empty v then none else some v)

unfoldable pub effective_gateway_assertion_secret : Env → AuthConfig → Option Text
effective_gateway_assertion_secret env auth =
    or_else (nonempty env.assertion_secret) (nonempty auth.gateway_assertion_secret)

unfoldable pub effective_gateway_assertion_key_id : Env → AuthConfig → Text
effective_gateway_assertion_key_id env auth =
    unwrap_or legacy_key_id
      (or_else (nonempty env.assertion_key_id) (nonempty auth.gateway_assertion_key_id))

unfoldable pub effective_gateway_assertion_previous : Env → AuthConfig → Option Text × Option Text
effective_gateway_assertion_previous env auth = (
  or_else (nonempty env.previous_key_id) auth.gateway_assertion_previous_key_id,
  or_else (nonempty env.previous_secret) auth.gateway_assertion_previous_secret,
)

abbrev pub urls : List WeightedBackend → List Text
urls backends = map (λ b. b.url) backends

unfoldable pub all_backends : RouteEntry → List Text
all_backends r = elim r.backend [
  | none ↦ urls r.backends
  | some b ↦
      if any (λ u. text_eq u b) (urls r.backends) then urls r.backends else b ∷ urls r.backends
]

unfoldable pub all_weights : RouteEntry → List ℕ
all_weights r =
    let weights = map (λ b. b.weight) r.backends in
    elim r.backend [
      | none ↦ weights
      | some b ↦ if any (λ u. text_eq u.url b) r.backends then weights else 1 ∷ weights
    ]

unfoldable pub route_info : RouteEntry → RouteInfo
route_info r = record {
  backends = all_backends r;
  weights = all_weights r;
  app_id = r.app_id;
  min_role = r.min_role;
  is_public = r.is_public;
  soft_auth = r.soft_auth;
  bypass_paths = r.auth_bypass_paths;
  auth_rules = r.auth_rules;
  path_prefix = r.path_prefix;
  strip_prefix = r.strip_prefix;
  add_prefix = r.add_prefix;
  geo_allowlist = r.geo_allowlist;
  geo_denylist = r.geo_denylist;
  timeout_secs = r.timeout_secs;
  cache = r.cache;
}

-- `collect` into a `HashMap`: a later route replaces an earlier one of the same key.
unfoldable pub collect_routes : RoutingTable → List RouteEntry → RoutingTable
collect_routes table [] = table
collect_routes table (r ∷ routes) =
    collect_routes (insert (to_lower r.host) (route_info r) table) routes

unfoldable pub routing_table : GatewayConfig → RoutingTable
routing_table c = collect_routes [] c.routing
