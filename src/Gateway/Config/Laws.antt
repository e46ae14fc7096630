-- ===== src/Gateway/Config/Laws.antt =====
-- What a configuration that passes its checks has.
use volta_gateway.Prelude.{
  ==_iff, ◌≡◌, ◌⊎◌, inl, inr, Bool, true, false, not, ◌&&◌, ◌||◌, none, some, List, [], ◌∷◌, arith,
  any, is_empty, length, ◌==◌, ◌≤◌, is_some, unwrap_or, map_option, All, All-map, append-nil,
  report, report-nil, report_each, report_each-nil, report_all, report_all-nil, Text, text_eq,
  Bool-cases, Option-cases,
}
use volta_gateway.Gateway.Rules.{AuthRule, is_public, min_role}
use volta_gateway.Gateway.Assertion.{min_secret_len, is_key_id}
use volta_gateway.Gateway.Config.{
  RouteEntry, GatewayConfig, Env, effective_gateway_assertion_secret,
  effective_gateway_assertion_key_id, all_backends,
}
use volta_gateway.Gateway.Config.Checks.{
  cached_route, bad_cidr, tls_errors, l4_errors, is_role, bad_prefix, duplicate_hosts, role_errors,
  rule_errors, route_errors, assertion_errors, current_errors, allowlist_errors, bad_scheme,
  backend_errors, validate_detailed,
}

holds_of_negated : {b : Bool} → not b ≡ false → b ≡ true
holds_of_negated {b} h = ground arith

-- A rule has a path for its prefix, and is public or names a role.
abbrev pub IsGoodRule : AuthRule → Type 0
IsGoodRule rule =
    (bad_prefix rule.prefix ≡ false)
    × ((is_public rule.auth ≡ true)
        ⊎ ((role : Text) × (min_role rule.auth ≡ some role) × (is_role role ≡ true)))

rule_errors-nil : (host : Text) (rule : AuthRule) → rule_errors host rule ≡ [] → IsGoodRule rule
unfolding rule_errors
rule_errors-nil host rule h =
    let (prefix, rest) = append-nil (report (bad_prefix rule.prefix) _) _ h in
    let (shape, role) =
      append-nil (report (not (is_public rule.auth || is_some (min_role rule.auth))) _) _ rest in
    (
      report-nil (bad_prefix rule.prefix) _ prefix,
      elim (Option-cases (min_role rule.auth)) [
        | inl unset ↦ inl (ground arith)
        | inr (r, found) ↦ inr (r, found, ground arith)
      ],
    )

-- A required role is one of the five, on a route that is neither public nor soft.
abbrev pub IsGoodRole : RouteEntry → Type 0
IsGoodRole r =
    (r.min_role ≡ none)
    ⊎ ((role : Text) × (r.min_role ≡ some role)
        × (is_role role ≡ true)
        × (r.is_public ≡ false)
        × (r.soft_auth ≡ false))

pub record IsGoodRoute (r : RouteEntry) : Type 0 where
  pub backends : is_empty (all_backends r) ≡ false
  pub uncached :
      (r.is_public ≡ true) ⊎ (unwrap_or false (map_option (λ c. c.enabled) r.cache) ≡ false)
  pub role : IsGoodRole r
  pub one_mode : (r.is_public && r.soft_auth) ≡ false
  pub bypasses : All (λ b. bad_prefix b.prefix ≡ false) r.auth_bypass_paths
  pub rules : All IsGoodRule r.auth_rules

uncached_cases :
    (r : RouteEntry)
    → report
        (not r.is_public && unwrap_or false (map_option (λ c. c.enabled) r.cache))
        (cached_route r.host)
      ≡ []
    → (r.is_public ≡ true) ⊎ (unwrap_or false (map_option (λ c. c.enabled) r.cache) ≡ false)
uncached_cases r h = elim (Bool-cases r.is_public) [
  | inl open_route ↦ inl open_route
  | inr closed ↦ inr (
      ground (
        arith,
        report-nil (not r.is_public && unwrap_or false (map_option (λ c. c.enabled) r.cache))
            (cached_route r.host) h,
      ))
]

route_errors-nil : (r : RouteEntry) → route_errors r ≡ [] → IsGoodRoute r
unfolding route_errors role_errors
route_errors-nil r h =
    let (a, h1) = append-nil (report (is_empty (all_backends r)) _) _ h in
    let (b, h2) = append-nil (report (not r.is_public && _) _) _ h1 in
    let (c, h3) = append-nil (role_errors r) _ h2 in
    let (d, h4) = append-nil (report (r.is_public && r.soft_auth) _) _ h3 in
    let (e, h5) = append-nil (report (r.soft_auth && is_some r.min_role) _) _ h4 in
    let (f, g) = append-nil (report_each (λ b. bad_prefix b.prefix) _ r.auth_bypass_paths) _ h5 in
    record {
      backends = report-nil _ _ a;
      uncached = uncached_cases r b;
      role = elim (Option-cases r.min_role) [
        | inl unset ↦ inl unset
        | inr (role, found) ↦ inr (role, found, ground arith, ground arith, ground arith)
      ];
      one_mode = report-nil _ _ d;
      bypasses = report_each-nil _ _ r.auth_bypass_paths f;
      rules = All-map (rule_errors-nil r.host) r.auth_rules (report_all-nil _ r.auth_rules g);
    }

-- No host is listed twice, or is one of those seen before.
abbrev pub AreDistinct : List Text → List RouteEntry → Type 0
AreDistinct seen [] = Unit
AreDistinct seen (r ∷ routes) =
    (any (λ h. text_eq h r.host) seen ≡ false) × AreDistinct (r.host ∷ seen) routes

duplicate_hosts-nil :
    (seen : List Text) (routes : List RouteEntry)
    → duplicate_hosts seen routes ≡ []
    → AreDistinct seen routes
unfolding duplicate_hosts
duplicate_hosts-nil seen [] h = tt
duplicate_hosts-nil seen (r ∷ routes) h =
    let (new, rest) = append-nil (report (any (λ h. text_eq h r.host) seen) _) _ h in
    (report-nil _ _ new, duplicate_hosts-nil (r.host ∷ seen) routes rest)

-- A current key is long enough and has an identifier.
abbrev pub IsGoodKey : Env → GatewayConfig → Type 0
IsGoodKey env c =
    (effective_gateway_assertion_secret env c.auth ≡ none)
    ⊎ ((secret : Text) × (effective_gateway_assertion_secret env c.auth ≡ some secret)
        × (min_secret_len ≤ length secret)
        × (is_key_id (effective_gateway_assertion_key_id env c.auth) ≡ true))

assertion_errors-nil :
    (env : Env) (c : GatewayConfig) → assertion_errors env c ≡ [] → IsGoodKey env c
unfolding assertion_errors current_errors
assertion_errors-nil env c h =
    let secret = effective_gateway_assertion_secret env c.auth in
    let key_id = effective_gateway_assertion_key_id env c.auth in
    let (current, _) = append-nil (current_errors env c secret key_id) _ h in
    elim (Option-cases secret) [
      | inl unset ↦ inl unset
      | inr (s, found) ↦ inr (s, found, ground arith, ground arith)
    ]

module _ (is_net is_uri : Text → Bool) where
  backend_errors-nil :
      (host b : Text)
      → backend_errors is_net is_uri host b ≡ []
      → (is_uri b ≡ true) × (bad_scheme is_net is_uri b ≡ false)
  unfolding backend_errors
  backend_errors-nil host b h = (ground arith, ground arith)

  pub record IsChecked (env : Env) (c : GatewayConfig) : Type 0 where
    pub version : c.config_version ≡ 3
    pub served : is_empty c.routing ≡ false
    pub hosts : AreDistinct [] c.routing
    pub networks : All (λ r. All (λ cidr. is_net cidr ≡ true) r.ip_allowlist) c.routing
    pub routes : All IsGoodRoute c.routing
    pub key : IsGoodKey env c
    pub addresses :
        All
          (λ r.
            All (λ b. (is_uri b ≡ true) × (bad_scheme is_net is_uri b ≡ false)) (all_backends r))
          c.routing

  -- A configuration without errors is of version 3 and has a route; no host is listed twice; every
  -- network of a route parses; every route is good in itself, its backends parse and are of HTTP; and a
  -- current key is long enough and has an identifier.
  pub validate_detailed-IsChecked :
      (env : Env) (c : GatewayConfig) → validate_detailed is_net is_uri env c ≡ [] → IsChecked env c
  unfolding validate_detailed allowlist_errors
  validate_detailed-IsChecked env c h =
      let (version, h1) = append-nil (report (not (c.config_version == 3)) _) _ h in
      let (served, h2) = append-nil (report (is_empty c.routing) _) _ h1 in
      let (_, h3) = append-nil (report (c.port == 0) _) _ h2 in
      let (hosts, h4) = append-nil (duplicate_hosts [] c.routing) _ h3 in
      let (nets, h5) = append-nil (report_all (allowlist_errors is_net is_uri) c.routing) _ h4 in
      let (_, h6) = append-nil (tls_errors c.tls) _ h5 in
      let (_, h7) = append-nil (report (c.force_https && not (is_some c.tls)) _) _ h6 in
      let (_, h8) = append-nil (l4_errors is_net is_uri 0 c.l4_proxy) _ h7 in
      let (routes, h9) = append-nil (report_all route_errors c.routing) _ h8 in
      let (key, h10) = append-nil (assertion_errors env c) _ h9 in
      let (addresses, _) =
        append-nil
          (report_all (λ r. report_all (backend_errors is_net is_uri r.host) (all_backends r))
            c.routing)
          _ h10 in
      record {
        version = (==_iff c.config_version 3).0 (holds_of_negated (report-nil _ _ version));
        served = report-nil _ _ served;
        hosts = duplicate_hosts-nil [] c.routing hosts;
        networks =
            All-map
              (λ r n.
                All-map (λ cidr k. holds_of_negated k) r.ip_allowlist
                  (report_each-nil (λ cidr. not (is_net cidr)) (bad_cidr r.host) r.ip_allowlist n))
              c.routing (report_all-nil (allowlist_errors is_net is_uri) c.routing nets);
        routes = All-map route_errors-nil c.routing (report_all-nil _ c.routing routes);
        key = assertion_errors-nil env c key;
        addresses =
            All-map
              (λ r n.
                All-map (backend_errors-nil r.host) (all_backends r)
                  (report_all-nil (backend_errors is_net is_uri r.host) (all_backends r) n))
              c.routing
              (report_all-nil
                (λ r. report_all (backend_errors is_net is_uri r.host) (all_backends r)) c.routing
                addresses);
      }
