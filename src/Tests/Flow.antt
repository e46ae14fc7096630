-- ===== src/Tests/Flow.antt =====
-- Requests through the validator and the resolver of gateway/src/flow.rs.
use volta_gateway.Prelude.{
  All, ℕ, zero, suc, ◌≡◌, ◌≢◌, ◌↔◌, refl, false, none, some, List, [], ◌∷◌, arith, ◌==◌, Text, text,
  text_eq, strip_prefix,
}
use volta_gateway.Prelude.Dict.{Dict, get, contains_key}
use volta_gateway.Gateway.Rules.{
  AuthRule, AuthRuleAuth, ResolvedAuth, role, resolve, rule_matches, is_public, min_role,
  insert_rule, sort_rules, resolve_auth_rule,
}
use volta_gateway.Gateway.Rules.Laws.{IsMostSpecific, resolve_auth_rule-IsMostSpecific}
use volta_gateway.Gateway.Routing.{
  RouteInfo, RoutingTable, split_once, find_route, bypass_path_matches,
}
use volta_gateway.Gateway.Traversal.{
  hex_val, char_bytes, escape, decode_pass, urlencoding_decode, contains_dots, passes,
}
use volta_gateway.Gateway.Traversal.Divergence.{IsStuck, has_escape}
use volta_gateway.Gateway.Flow.{
  received, completed, RequestData, ok, diverged, check_body, check_decoded, check_ip,
  is_known_host, validate_request, resolve_routing, request_validator, routing_resolver, auth_guard,
  forward_guard, completion_processor,
}
use volta_gateway.Gateway.Flow.Laws.{
  IsAdmissible, validate_request-IsAdmissible, validate_request-returns, validate_request-diverges,
}
use volta_gateway.Gateway.Flow.Graph.{◌⟶*◌, here, then}

flow : Unit {0}
unfolding validate_request check_body check_decoded check_ip is_known_host contains_key get
    split_once text_eq urlencoding_decode decode_pass char_bytes escape hex_val contains_dots passes
    has_escape find_route resolve_routing resolve_auth_rule sort_rules insert_rule rule_matches
    resolve is_public min_role strip_prefix bypass_path_matches
flow = tt

abbrev any_route : RouteInfo
any_route = record {
  backends = text "http://10.0.0.1" ∷ [];
  weights = [];
  app_id = none;
  min_role = none;
  is_public = false;
  soft_auth = false;
  bypass_paths = [];
  auth_rules = [];
  path_prefix = none;
  strip_prefix = none;
  add_prefix = none;
  geo_allowlist = [];
  geo_denylist = [];
  timeout_secs = none;
  cache = none;
}

abbrev table : RoutingTable
table = (text "*.ex.org", any_route) ∷ []

-- Addresses and networks are numbers here: a network holds the one address that it equals.
abbrev lists : Dict Text (List ℕ)
lists = (text "a.ex.org", 7 ∷ []) ∷ []

abbrev ask : Text → RequestData ℕ
ask path = record {
  host = text "a.ex.org";
  path = path;
  method = text "GET";
  header_size = 100;
  content_length = some 10;
  client_ip = some 7;
}

accepted : validate_request ◌==◌ 3 table lists (ask (text "/x%20y")) ≡ ok tt
unfolding flow
accepted = refl

validate_request-IsAdmissible_example : IsAdmissible ◌==◌ lists table 3 (ask (text "/x%20y"))
validate_request-IsAdmissible_example =
    validate_request-IsAdmissible ◌==◌ lists table 3 (ask (text "/x%20y")) accepted

plain_passes : (k : ℕ) → passes k (text "/ab") ≡ text "/ab"
unfolding flow
plain_passes zero = refl
plain_passes (suc k) = plain_passes k

validate_request-returns_example : validate_request ◌==◌ 4 table lists (ask (text "/ab")) ≢ diverged
validate_request-returns_example =
    validate_request-returns ◌==◌ lists table (ask (text "/ab")) (λ k. rw (plain_passes k) refl)

bad_path-IsStuck_2 : IsStuck (decode_pass (text "/%zz%ff"))
unfolding flow
bad_path-IsStuck_2 = record { no_escape = refl; percent = refl; high = refl }

validate_request-diverges_example :
    validate_request ◌==◌ 50 table lists (ask (text "/%zz%ff")) ≡ diverged
validate_request-diverges_example =
    validate_request-diverges ◌==◌ lists table (ask (text "/%zz%ff")) 50 (omega arith)
      (unfold flow in refl) (λ e. cc) (unfold flow in refl) bad_path-IsStuck_2

whole_walk : received ⟶* completed
whole_walk =
    then request_validator (
      then routing_resolver (then auth_guard (then forward_guard (then completion_processor here))))

abbrev admin_rule : AuthRule
admin_rule = record {
  prefix = text "/admin";
  match_mode = text "segment";
  auth = role (text "ADMIN");
}

abbrev open_rule : AuthRule
open_rule = record {
  prefix = text "/admin/login";
  match_mode = text "exact";
  auth = AuthRuleAuth.public (text "public");
}

abbrev rules : List AuthRule
rules = admin_rule ∷ open_rule ∷ []

longest_first : resolve_auth_rule rules (text "/admin/login") ≡ some ResolvedAuth.public
unfolding flow
longest_first = refl

resolve_auth_rule-IsMostSpecific_example :
    ((auth : ResolvedAuth)
      → resolve_auth_rule rules (text "/admin/login") ≡ some auth
      → (rule : AuthRule) × IsMostSpecific rules (text "/admin/login") rule × (auth ≡ resolve rule))
    × ((resolve_auth_rule rules (text "/admin/login") ≡ none)
        ↔ All (λ r. rule_matches r (text "/admin/login") ≡ false) rules)
resolve_auth_rule-IsMostSpecific_example =
    resolve_auth_rule-IsMostSpecific rules (text "/admin/login")
