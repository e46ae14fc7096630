-- ===== src/Gateway/Access.antt =====
-- The access decision of `ProxyService::handle` in gateway/src/proxy.rs: from the route that was
-- found to the headers that the backend is given, or to the response that refuses the request.
-- The call of the auth server is a parameter: it is given the role that it is to ask for and
-- whether it may fall back on the local check. Roles are ASCII text.
pub mod Laws
pub mod Public
use volta_gateway.Prelude.{
  ℕ, Bool, true, false, not, ◌||◌, Option, none, some, List, [], ◌∷◌, map, if◌then◌else◌, and_then,
  or_else, map_option, unwrap_or, is_some, find, filter, Text, text, text_eq, text_is_eq, trim,
  split, upper_byte,
}
use volta_gateway.Prelude.Dict.{Dict, get}
use volta_gateway.AuthCore.Policy.{
  PolicyResult, allow, default_policy, is_known_role, enforce_min_role,
}
use volta_gateway.Gateway.Rules.{ResolvedAuth, require, resolve_auth_rule}
use volta_gateway.Gateway.Routing.{BypassPath, RouteInfo, bypass_path_matches}
use volta_gateway.Gateway.Auth.{AuthResult, authenticated, redirect, denied, error}

-- `refuse` carries the status of the error page.
pub data Access : Type 0 where
  proceed : Dict Text Text → Text → Access
  redirect_to : Text → Access
  refuse : ℕ → Access

unfoldable pub bypass_match : Option RouteInfo → Text → Option BypassPath
bypass_match route path =
    and_then route (λ r. find (λ bp. bypass_path_matches path bp.prefix) r.bypass_paths)

unfoldable pub auth_rule_match : Option RouteInfo → Text → Option ResolvedAuth
auth_rule_match route path = and_then route (λ r. resolve_auth_rule r.auth_rules path)

abbrev pub route_is_public : Option RouteInfo → Bool
route_is_public route = unwrap_or false (map_option (λ r. r.is_public) route)

abbrev pub route_is_soft : Option RouteInfo → Bool
route_is_soft route = unwrap_or false (map_option (λ r. r.soft_auth) route)

abbrev is_rule_public : Option ResolvedAuth → Bool
is_rule_public (some ResolvedAuth.public) = true
is_rule_public _ = false

unfoldable pub skip_auth : Option RouteInfo → Text → Bool
skip_auth route path =
    route_is_public route
    || is_some (bypass_match route path)
    || is_rule_public (auth_rule_match route path)

-- A rule for the path overrides the role of the route, and a public rule drops it.
abbrev pub override_role : Option ResolvedAuth → Option Text → Option Text
override_role (some (require role)) min_role = some role
override_role (some ResolvedAuth.public) min_role = none
override_role none min_role = min_role

unfoldable pub effective_min_role : Option RouteInfo → Text → Option Text
effective_min_role route path =
    override_role (auth_rule_match route path) (and_then route (λ r. r.min_role))

pub data AuthStep : Type 0 where
  with_headers : Dict Text Text → AuthStep
  stop : Access → AuthStep

abbrev soft_step : AuthResult → AuthStep
soft_step (authenticated headers) = with_headers headers
soft_step _ = with_headers []

abbrev hard_step : AuthResult → AuthStep
hard_step (authenticated headers) = with_headers headers
hard_step (redirect location) = stop (redirect_to location)
hard_step denied = stop (refuse 403)
hard_step (error _) = stop (refuse 502)

unfoldable pub authenticate :
    (skip soft : Bool) → Option Text → (Option Text → Bool → AuthResult) → AuthStep
authenticate skip soft min_role check =
    if skip
    then with_headers []
    else if soft
    then soft_step (check min_role true)
    else hard_step (check min_role (not (is_some min_role)))

-- The roles of the `x-volta-roles` header.
unfoldable pub roles_of : Dict Text Text → List Text
roles_of headers = elim (get (text "x-volta-roles") headers) [
  | none ↦ []
  | some value ↦
      filter (λ role. not (text_eq role []))
        (map (λ role. map upper_byte (trim role)) (split b',' value))
]

unfoldable pub required_role : Text → Text
required_role min_role = map upper_byte (trim min_role)

abbrev is_allow : PolicyResult → Bool
is_allow allow = true
is_allow _ = false

-- The enforcement block: `true` lets the request through.
unfoldable pub role_satisfied : Option Text → (is_public bypassed : Bool) → Dict Text Text → Bool
role_satisfied none is_public bypassed headers = true
role_satisfied (some min_role) is_public bypassed headers =
    if is_public
    then false
    else if bypassed
    then true
    else if not (is_known_role default_policy (required_role min_role))
    then false
    else is_allow (enforce_min_role default_policy (roles_of headers) (required_role min_role))

unfoldable pub access :
    Option RouteInfo → Text → (selected : Text) → (Option Text → Bool → AuthResult) → Access
access route path selected check =
    let bypass = bypass_match route path in
    let min_role = effective_min_role route path in
    let backend = unwrap_or selected (and_then bypass (λ bp. bp.backend)) in
    elim (authenticate (skip_auth route path) (route_is_soft route) min_role check) [
      | stop response ↦ response
      | with_headers headers ↦
          if role_satisfied min_role (route_is_public route) (is_some bypass) headers
          then proceed headers backend
          else refuse 403
    ]
