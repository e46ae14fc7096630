-- ===== src/Tests/Config.antt =====
-- A configuration, its checks and its table of routes.
use volta_gateway.Prelude.{
  ◌≡◌, refl, true, false, Bool, Option, none, some, List, [], ◌∷◌, Text, text, text_eq, to_lower,
  trim, strip_prefix, starts_with, ends_with_byte, report_each, report_all,
}
use volta_gateway.Prelude.Dict.{get, insert}
use volta_gateway.AuthCore.Policy.{default_policy, is_known_role}
use volta_gateway.Gateway.Rules.{
  role, resolve, require, rule_matches, is_public, min_role, insert_rule, sort_rules,
  resolve_auth_rule,
}
use volta_gateway.Gateway.Routing.{find_route}
use volta_gateway.Gateway.Auth.{AuthResult, authenticated}
use volta_gateway.Gateway.Access.{
  refuse, auth_rule_match, effective_min_role, required_role, access,
}
use volta_gateway.Gateway.Access.Public.{access-public}
use volta_gateway.Gateway.Config.{
  RouteEntry, GatewayConfig, Env, all_backends, all_weights, route_info, collect_routes,
  routing_table, effective_gateway_assertion_secret, effective_gateway_assertion_key_id,
  effective_gateway_assertion_previous,
}
use volta_gateway.Gateway.Config.Checks.{
  is_role, duplicate_hosts, tls_errors, role_errors, rule_errors, route_errors, previous_errors,
  current_errors, assertion_errors, credential_errors, allowlist_errors, l4_errors, backend_errors,
  validate_detailed, bad_min_role, exit_code,
}
use volta_gateway.Gateway.Config.Laws.{IsChecked, validate_detailed-IsChecked}
use volta_gateway.Gateway.Config.Tables.{effective_min_role-known}

abbrev pub entry : Text → Bool → RouteEntry
entry host is_public = record {
  host = host;
  backend = some (text "http://10.0.0.1");
  backends = record { url = text "http://10.0.0.2"; weight = 3 } ∷ [];
  app_id = none;
  min_role = none;
  ip_allowlist = [];
  cors_origins = [];
  path_prefix = none;
  strip_prefix = none;
  add_prefix = none;
  geo_allowlist = [];
  geo_denylist = [];
  is_public = is_public;
  soft_auth = false;
  auth_bypass_paths = [];
  auth_rules =
      (record { prefix = text "/admin"; match_mode = text "segment"; auth = role (text "ADMIN") })
      ∷ [];
  timeout_secs = none;
  cache = none;
}

abbrev serving : List RouteEntry → GatewayConfig
serving routes = record {
  config_version = 3;
  port = 8080;
  force_https = false;
  auth = record {
    gateway_assertion_secret = none;
    gateway_assertion_key_id = none;
    gateway_assertion_previous_key_id = none;
    gateway_assertion_previous_secret = none;
  };
  routing = routes;
  tls = none;
  l4_proxy = [];
  plugins = [];
}

abbrev unset : Env
unset = record {
  assertion_secret = none;
  assertion_key_id = none;
  previous_key_id = none;
  previous_secret = none;
  cf_dns_api_token = none;
}

abbrev anything : Text → Bool
anything t = true

abbrev public_app : GatewayConfig
public_app = serving (entry (text "app") true ∷ [])

-- A public route may have a rule that asks for a role.
public_app-accepted : validate_detailed anything anything unset public_app ≡ []
unfolding validate_detailed duplicate_hosts allowlist_errors report_all report_each tls_errors
    l4_errors route_errors role_errors rule_errors is_public min_role is_role trim text_eq
    all_backends assertion_errors current_errors previous_errors effective_gateway_assertion_secret
    effective_gateway_assertion_previous effective_gateway_assertion_key_id backend_errors
    credential_errors starts_with strip_prefix
public_app-accepted = refl

-- Two hosts that differ in case pass the checks, and the table has the second alone.
abbrev two_cases : GatewayConfig
two_cases = serving (entry (text "APP") false ∷ entry (text "app") true ∷ [])

two_cases-accepted : validate_detailed anything anything unset two_cases ≡ []
unfolding validate_detailed duplicate_hosts allowlist_errors report_all report_each tls_errors
    l4_errors route_errors role_errors rule_errors is_public min_role is_role trim text_eq
    all_backends assertion_errors current_errors previous_errors effective_gateway_assertion_secret
    effective_gateway_assertion_previous effective_gateway_assertion_key_id backend_errors
    credential_errors starts_with strip_prefix
two_cases-accepted = refl

two_cases-table : routing_table two_cases ≡ (text "app", route_info (entry (text "app") true)) ∷ []
unfolding routing_table collect_routes insert text_eq to_lower
two_cases-table = refl

weights : all_weights (entry (text "app") true) ≡ 1 ∷ 3 ∷ []
unfolding all_weights text_eq
weights = refl

unknown_role :
    role_errors (record (entry (text "app") false) { min_role = some (text "chief") })
    ≡ bad_min_role (text "app") (text "chief") ∷ []
unfolding role_errors is_role trim text_eq
unknown_role = refl

exit_codes : exit_code (bad_min_role (text "app") (text "chief")) ≡ 1
unfolding exit_code
exit_codes = refl

validate_detailed-IsChecked_example : IsChecked anything anything unset public_app
validate_detailed-IsChecked_example =
    validate_detailed-IsChecked anything anything unset public_app public_app-accepted

app_found :
    find_route (routing_table public_app) (text "app") ≡ some (route_info (entry (text "app") true))
unfolding find_route routing_table collect_routes insert get text_eq to_lower
app_found = refl

app_rule :
    effective_min_role (some (route_info (entry (text "app") true))) (text "/admin/x")
    ≡ some (text "ADMIN")
unfolding effective_min_role auth_rule_match route_info resolve_auth_rule sort_rules insert_rule
    rule_matches text_eq resolve is_public min_role starts_with strip_prefix ends_with_byte
app_rule = refl

effective_min_role-known_example :
    is_known_role default_policy (required_role (text "ADMIN")) ≡ true
effective_min_role-known_example =
    effective_min_role-known anything anything unset public_app (text "app") (text "/admin/x")
      (route_info (entry (text "app") true)) (text "ADMIN") public_app-accepted app_found app_rule

abbrev anyone : Option Text → Bool → AuthResult
anyone host passive = authenticated []

app_public : (route_info (entry (text "app") true)).is_public ≡ true
unfolding route_info
app_public = refl

app_match :
    auth_rule_match (some (route_info (entry (text "app") true))) (text "/admin/x")
    ≡ some (require (text "ADMIN"))
unfolding auth_rule_match route_info resolve_auth_rule sort_rules insert_rule rule_matches text_eq
    resolve is_public min_role starts_with strip_prefix ends_with_byte
app_match = refl

access-public_example :
    access (some (route_info (entry (text "app") true))) (text "/admin/x") [] anyone ≡ refuse 403
access-public_example =
    access-public (route_info (entry (text "app") true)) (text "/admin/x") [] (text "ADMIN") anyone
      app_public app_match
