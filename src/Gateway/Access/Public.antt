-- ===== src/Gateway/Access/Public.antt =====
-- A path rule on a public route.
use volta_gateway.Prelude.{◌≡◌, Bool, true, Option, some, arith, Text}
use volta_gateway.Gateway.Rules.{require}
use volta_gateway.Gateway.Routing.{RouteInfo}
use volta_gateway.Gateway.Auth.{AuthResult}
use volta_gateway.Gateway.Access.{
  refuse, auth_rule_match, skip_auth, effective_min_role, authenticate, role_satisfied, access,
}

-- On a public route every request under a path rule that asks for a role is refused with 403,
-- whoever makes it: the route skips authentication, and the rule does not override that.
pub access-public :
    (route : RouteInfo) (path selected role : Text) (check : Option Text → Bool → AuthResult)
    → route.is_public ≡ true
    → auth_rule_match (some route) path ≡ some (require role)
    → access (some route) path selected check ≡ refuse 403
unfolding access skip_auth effective_min_role authenticate role_satisfied
access-public route path selected role check open_route rule = ground arith
