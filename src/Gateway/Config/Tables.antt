-- ===== src/Gateway/Config/Tables.antt =====
-- The routes of a configuration that passes its checks, as the gateway serves them.
use volta_gateway.Prelude.{
  ◌≡◌, ◌⊎◌, refl, inl, inr, sym, subst, Bool, true, some, List, [], ◌∷◌, ◌++◌, arith, In, All-In,
  Text, text, text_eq, text_is_eq, to_lower, trim, Bool-cases, Option-cases,
}
use volta_gateway.Prelude.Dict.{get, insert}
use volta_gateway.Prelude.Dict.Laws.{get-insert}
use volta_gateway.AuthCore.Policy.{default_policy, is_known_role}
use volta_gateway.Gateway.Rules.{
  AuthRule, ResolvedAuth, require, is_public, resolve, resolve_auth_rule,
}
use volta_gateway.Gateway.Rules.Laws.{resolve_auth_rule-IsMostSpecific}
use volta_gateway.Gateway.Routing.{RouteInfo, RoutingTable, find_route, split_once}
use volta_gateway.Gateway.Access.{auth_rule_match, effective_min_role, required_role}
use volta_gateway.Gateway.Config.{
  RouteEntry, GatewayConfig, Env, route_info, collect_routes, routing_table,
}
use volta_gateway.Gateway.Config.Checks.{is_role, validate_detailed}
use volta_gateway.Gateway.Config.Laws.{IsGoodRule, IsGoodRoute, validate_detailed-IsChecked}

-- The entry of the configuration that a route of the table comes from.
abbrev pub Entry : List RouteEntry → RouteInfo → Type 0
Entry routes info = (r : RouteEntry) × In r routes × (route_info r ≡ info)

collect_routes-Entry :
    (routes : List RouteEntry) (table : RoutingTable) (h : Text) (info : RouteInfo)
    → get h (collect_routes table routes) ≡ some info
    → (get h table ≡ some info) ⊎ Entry routes info
unfolding collect_routes
collect_routes-Entry [] table h info e = inl e
collect_routes-Entry (r ∷ routes) table h info e =
    elim (collect_routes-Entry routes (insert (to_lower r.host) (route_info r) table) h info e) [
      | inl held ↦ elim (Bool-cases (text_eq (to_lower r.host) h)) [
        | inl here ↦
            inr (r, In.head, ground (arith, get-insert (to_lower r.host) h (route_info r) table))
        | inr other ↦ inl (ground (arith, get-insert (to_lower r.host) h (route_info r) table))
      ]
      | inr (s, listed, same) ↦ inr (s, In.tail listed, same)
    ]

table-Entry :
    (c : GatewayConfig) (h : Text) (info : RouteInfo)
    → get h (routing_table c) ≡ some info
    → Entry c.routing info
unfolding routing_table get
table-Entry c h info e = elim (collect_routes-Entry c.routing [] h info e) [
  | inl held ↦ absurd (cc)
  | inr entry ↦ entry
]

find_route-Entry :
    (c : GatewayConfig) (host : Text) (info : RouteInfo)
    → find_route (routing_table c) host ≡ some info
    → Entry c.routing info
unfolding find_route
find_route-Entry c host info e = elim (Option-cases (get host (routing_table c))) [
  | inr (found_info, found) ↦ table-Entry c host info (ground arith)
  | inl missed ↦ elim (Option-cases (split_once b'.' host)) [
    | inl no_dot ↦ absurd (ground arith)
    | inr ((label, domain), cut) ↦ table-Entry c (text "*." ++ domain) info (ground arith)
  ]
]

is_role-known :
    (role : Text) → is_role role ≡ true → is_known_role default_policy (required_role role) ≡ true
unfolding is_role is_known_role default_policy required_role
is_role-known role h = h

owner-known : is_known_role default_policy (required_role (text "OWNER")) ≡ true
unfolding is_known_role default_policy required_role text_eq trim
owner-known = refl

resolve-known :
    (rule : AuthRule) (role : Text)
    → IsGoodRule rule
    → resolve rule ≡ require role
    → is_known_role default_policy (required_role role) ≡ true
unfolding resolve
resolve-known rule role (_, inl open_rule) e = absurd (ground arith)
resolve-known rule role (_, inr (named, found, good)) e = elim (Bool-cases (is_public rule.auth)) [
  | inl open_rule ↦ absurd (ground arith)
  | inr closed ↦
      let same : named ≡ role = ground arith in
      subst (λ r. is_known_role default_policy (required_role r) ≡ true) same
        (is_role-known named good)
]

-- The route of a good entry asks only for roles that the policy knows.
route_info-known :
    (r : RouteEntry) (role : Text)
    → IsGoodRoute r
    → (route_info r).min_role ≡ some role
    → is_known_role default_policy (required_role role) ≡ true
unfolding route_info
route_info-known r role good e = elim good.role [
  | inl unset ↦ absurd (ground arith)
  | inr (named, found, is_one, _, _) ↦
      let same : named ≡ role = ground arith in
      subst (λ r. is_known_role default_policy (required_role r) ≡ true) same
        (is_role-known named is_one)
]

rule-known :
    (r : RouteEntry) (path role : Text)
    → IsGoodRoute r
    → resolve_auth_rule (route_info r).auth_rules path ≡ some (require role)
    → is_known_role default_policy (required_role role) ≡ true
unfolding route_info
rule-known r path role good e =
    let (rule, specific, same) =
      (resolve_auth_rule-IsMostSpecific r.auth_rules path).0 (require role) e in
    resolve-known rule role (All-In IsGoodRule specific.listed good.rules) (sym same)

entry-known :
    (r : RouteEntry) (path role : Text)
    → IsGoodRoute r
    → effective_min_role (some (route_info r)) path ≡ some role
    → is_known_role default_policy (required_role role) ≡ true
unfolding effective_min_role auth_rule_match
entry-known r path role good e =
    elim (Option-cases (resolve_auth_rule (route_info r).auth_rules path)) [
      | inl unruled ↦ route_info-known r role good (ground arith)
      | inr (ResolvedAuth.public, found) ↦ absurd (ground arith)
      | inr (require named, found) ↦ rule-known r path role good (ground arith)
    ]

module _ (is_net is_uri : Text → Bool) where
  -- Under a configuration that passes its checks, a role that a request to one of its hosts must have,
  -- by the route or by a rule for the path, is one that the policy knows.
  pub effective_min_role-known :
      (env : Env) (c : GatewayConfig) (host path : Text) (info : RouteInfo) (role : Text)
      → validate_detailed is_net is_uri env c ≡ []
      → find_route (routing_table c) host ≡ some info
      → effective_min_role (some info) path ≡ some role
      → is_known_role default_policy (required_role role) ≡ true
  effective_min_role-known env c host path info role ok found e =
      let checked = validate_detailed-IsChecked is_net is_uri env c ok in
      let (r, listed, same) = find_route-Entry c host info found in
      entry-known r path role (All-In IsGoodRoute listed checked.routes)
        (subst (λ i. effective_min_role (some i) path ≡ some role) (sym same) e)
