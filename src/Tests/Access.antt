-- ===== src/Tests/Access.antt =====
-- The access decision, the client of the auth server and the role policy on concrete requests.
use volta_gateway.Prelude.{
  ◌++◌, ◌⊎◌, suc, u64, ◌≤◌, ◌≡◌, ◌↔◌, refl, Bool, true, false, Option, none, some, [], ◌∷◌, Text,
  text, text_eq, split, In, strip_prefix, starts_with, trim, trim_end, ends_with_byte,
}
use volta_gateway.Prelude.Dict.{Dict, get, insert}
use volta_gateway.AuthCore.Policy.{
  allow, default_policy, position, can, rank, is_at_least, is_known_role, enforce_min_role,
}
use volta_gateway.AuthCore.Policy.Laws.{enforce_min_role_iff, is_at_least-can}
use volta_gateway.Gateway.Rules.{
  AuthRule, role, resolve, rule_matches, is_public, min_role, insert_rule, sort_rules,
  resolve_auth_rule,
}
use volta_gateway.Gateway.Routing.{RouteInfo, bypass_path_matches}
use volta_gateway.Gateway.Auth.{
  valid, AuthResult, authenticated, responded, timed_out, volta_headers, online_result,
  sanitize_redirect, VoltaAuthClient, degraded_fallback, check_with_degraded_policy,
}
use volta_gateway.Gateway.Auth.Laws.{Answered, FellBack, check-authenticated}
use volta_gateway.Gateway.Auth.Redirect.{sanitize_redirect-append}
use volta_gateway.Gateway.Access.{
  proceed, bypass_match, auth_rule_match, skip_auth, effective_min_role, authenticate, roles_of,
  required_role, role_satisfied, access, route_is_public, route_is_soft,
}
use volta_gateway.Gateway.Access.Laws.{HasRole, IsAuthorised, access-IsAuthorised, require-HasRole}

requests : Unit {0}
unfolding trim ends_with_byte access authenticate role_satisfied roles_of required_role skip_auth
    effective_min_role auth_rule_match bypass_match bypass_path_matches resolve_auth_rule sort_rules
    insert_rule rule_matches resolve is_public min_role strip_prefix text_eq get insert split
    enforce_min_role is_at_least is_known_role rank position default_policy can starts_with trim_end
    sanitize_redirect online_result volta_headers check_with_degraded_policy degraded_fallback
requests = tt

abbrev admin_only : AuthRule
admin_only = record {
  prefix = text "/admin";
  match_mode = text "segment";
  auth = role (text "ADMIN");
}

abbrev shop : Option RouteInfo
shop = some (record {
  backends = text "http://10.0.0.1" ∷ [];
  weights = [];
  app_id = none;
  min_role = none;
  is_public = false;
  soft_auth = true;
  bypass_paths = [];
  auth_rules = admin_only ∷ [];
  path_prefix = none;
  strip_prefix = none;
  add_prefix = none;
  geo_allowlist = [];
  geo_denylist = [];
  timeout_secs = none;
  cache = none;
})

abbrev owner_headers : Dict Text Text
owner_headers = (text "x-volta-roles", text "member, owner") ∷ []

abbrev owner : Option Text → Bool → AuthResult
owner _ _ = authenticated owner_headers

let_in :
    access shop (text "/admin/users") (text "http://10.0.0.1") owner
    ≡ proceed owner_headers (text "http://10.0.0.1")
unfolding requests
let_in = refl

access-IsAuthorised_example : IsAuthorised shop (text "/admin/users") owner owner_headers
access-IsAuthorised_example =
    access-IsAuthorised shop (text "/admin/users") owner owner_headers (text "http://10.0.0.1")
      (text "http://10.0.0.1") let_in

require-HasRole_example :
    (access shop (text "/admin/users") (text "http://10.0.0.1") owner
      ≡ proceed owner_headers (text "http://10.0.0.1"))
    ↔ ((route_is_public shop ≡ false)
        × HasRole (text "ADMIN") owner_headers
        × (owner (some (text "ADMIN")) (route_is_soft shop) ≡ authenticated owner_headers)
        × (text "http://10.0.0.1" ≡ text "http://10.0.0.1"))
require-HasRole_example =
    require-HasRole shop (text "/admin/users") owner owner_headers (text "ADMIN")
      (text "http://10.0.0.1") (text "http://10.0.0.1") (unfold requests in refl)
      (unfold requests in refl)

abbrev client : VoltaAuthClient
client = record {
  session_verifier = some (λ cookie. valid owner_headers);
  auth_public_url = some (text "https://auth.ex.org/");
  degraded_mode = true;
  degraded_total = 4;
}

check-authenticated_example :
    (check_with_degraded_policy client (responded 404 none []) none true
      ≡ (authenticated owner_headers, record client { degraded_total = 5 }))
    ↔ (Answered client (responded 404 none []) owner_headers (record client { degraded_total = 5 })
        ⊎ (FellBack client (responded 404 none []) none true owner_headers
            × (record client { degraded_total = 5 }
                ≡ record client { degraded_total = u64 (suc client.degraded_total) })))
check-authenticated_example =
    check-authenticated client (responded 404 none []) none true owner_headers
      (record client { degraded_total = 5 })

-- The local check lets an administrator through on a soft route while the auth server does not answer.
degraded_admin :
    access shop
      (text "/admin/users")
      (text "http://10.0.0.1")
      (λ role allowed. (check_with_degraded_policy client timed_out none allowed).0)
    ≡ proceed owner_headers (text "http://10.0.0.1")
degraded_admin = unfold requests in refl

-- A status of 404 leads to the local check.
degraded_404 :
    (check_with_degraded_policy client (responded 404 none []) none true).0
    ≡ authenticated owner_headers
degraded_404 = unfold requests in refl

-- Another site, whose name continues the name of the auth server.
sanitize_redirect-append_example :
    sanitize_redirect
      (text "https://auth.ex.org" ++ text ".evil.org/")
      (some (text "https://auth.ex.org"))
    ≡ text "https://auth.ex.org" ++ text ".evil.org/"
sanitize_redirect-append_example =
    sanitize_redirect-append (text "https://auth.ex.org") (text ".evil.org/") (λ e. cc)
      (unfold requests in refl)

enforce_min_role_iff_example :
    (enforce_min_role default_policy (text "VIEWER" ∷ text "ADMIN" ∷ []) (text "OPERATOR") ≡ allow)
    ↔ ((is_known_role default_policy (text "OPERATOR") ≡ true)
        × ((r : Text) × In r (text "VIEWER" ∷ text "ADMIN" ∷ [])
            × (rank default_policy r ≤ rank default_policy (text "OPERATOR"))))
enforce_min_role_iff_example =
    enforce_min_role_iff default_policy (text "VIEWER" ∷ text "ADMIN" ∷ []) (text "OPERATOR")

is_at_least-can_example : can default_policy (text "ADMIN") (text "view_tenant_members") ≡ true
is_at_least-can_example =
    is_at_least-can (text "ADMIN") (text "MEMBER") (text "view_tenant_members")
      (unfold requests in refl) (unfold requests in refl) (unfold requests in refl)
      (unfold requests in refl)
