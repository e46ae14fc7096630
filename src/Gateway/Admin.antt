-- ===== src/Gateway/Admin.antt =====
-- Who may call the API of the gateway for administrators, and what the gateway says of its own health:
-- gateway/src/admin_auth.rs, the decisions of gateway/src/lifecycle.rs, `AdminConfig` of
-- gateway/src/config.rs, and their calls in gateway/src/main.rs. The comparison in constant time is
-- a parameter. A header value is ASCII.
pub mod Laws
use volta_gateway.Prelude.{
  ℕ, Bool, true, false, not, ◌&&◌, Option, none, some, List, [], length, ◌==◌, if◌then◌else◌,
  unwrap_or, map_option, and_then, or_else, Text, text, text_eq, text_is_eq, strip_prefix,
  starts_with, ◌++◌,
}
use volta_gateway.Prelude.Dict.{contains_key}
use volta_gateway.Gateway.Routing.{RoutingTable, normalize_host, split_once, host_is_routed_raw}
use volta_gateway.Gateway.Config.{nonempty}

pub data AdminAuth : Type 0 where
  allow unauthorized write_disabled : AdminAuth

pub data HealthStatus : Type 0 where
  healthy degraded draining : HealthStatus

unfoldable pub status_code : HealthStatus → ℕ
status_code healthy = 200
status_code degraded = 503
status_code draining = 503

unfoldable pub healthz_status : (is_draining volta_ok : Bool) → HealthStatus
healthz_status is_draining volta_ok =
    if is_draining then draining else if volta_ok then healthy else degraded

-- The variable of the environment, and the setting.
unfoldable pub effective_token : Option Text → Option Text → Option Text
effective_token env_token token = or_else (nonempty env_token) (nonempty token)

-- Whether the table has the host, or a wildcard for what follows its first dot.
unfoldable pub is_routed : RoutingTable → Text → Bool
is_routed routing host = if contains_key host routing then true else elim (split_once b'.' host) [
  | none ↦ false
  | some (_, domain) ↦ contains_key (text "*." ++ domain) routing
]

unfoldable pub admin_for_gateway : RoutingTable → Text → Option Text → Bool
admin_for_gateway routing path host =
    starts_with (text "/admin/") path
    && not (is_routed routing (unwrap_or [] (map_option normalize_host host)))

-- What becomes of a request: it goes to the proxy, or is refused with a status, or is let through to
-- the handlers for administrators.
pub data Gate : Type 0 where
  proxied admitted : Gate
  refused : ℕ → Gate

module _ (ct_eq : Text → Text → Bool) where
  unfoldable pub constant_time_eq : Text → Text → Bool
  constant_time_eq a b = if not (length a == length b) then false else ct_eq a b

  unfoldable pub decide : Option Text → Option Text → Bool → AdminAuth
  decide (some expected) auth_header is_mutating =
      elim (and_then auth_header (λ v. strip_prefix (text "Bearer ") v)) [
        | none ↦ unauthorized
        | some token ↦ if constant_time_eq token expected then allow else unauthorized
      ]
  decide none auth_header is_mutating = if is_mutating then write_disabled else allow

  abbrev gate_of : AdminAuth → Gate
  gate_of allow = admitted
  gate_of unauthorized = refused 401
  gate_of write_disabled = refused 403

  unfoldable pub admin_gate :
      RoutingTable
      → Option Text
      → (path : Text) → (host auth_header : Option Text) → (is_loopback is_mutating : Bool) → Gate
  admin_gate routing token path host auth_header is_loopback is_mutating =
      if not (admin_for_gateway routing path host)
      then proxied
      else if not is_loopback
      then refused 403
      else gate_of (decide token auth_header is_mutating)

-- The gateway answers for its own health on a host that is not routed.
unfoldable pub healthz :
    RoutingTable → (path : Text) → Option Text → (is_draining volta_ok : Bool) → Option HealthStatus
healthz routing path host is_draining volta_ok =
    if text_eq path (text "/healthz") && not (host_is_routed_raw host routing)
    then some (healthz_status is_draining volta_ok)
    else none
