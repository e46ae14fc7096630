-- ===== src/Tests/Admin.antt =====
-- The API for administrators and the health of the gateway.
use volta_gateway.Prelude.{
  ◌≡◌, ◌↔◌, refl, true, false, none, some, [], ◌∷◌, length, unwrap_or, map_option, Text, text,
  text_eq, text_eq_iff, text_is_eq, starts_with, strip_prefix,
}
use volta_gateway.Prelude.Dict.{get, contains_key}
use volta_gateway.Gateway.Routing.{
  RoutingTable, find_route, normalize_host, split_once, split_first, host_is_routed_raw,
}
use volta_gateway.Gateway.Config.{route_info}
use volta_gateway.Gateway.Admin.{
  admitted, refused, healthy, is_routed, admin_for_gateway, constant_time_eq, decide, admin_gate,
  healthz_status, healthz,
}
use volta_gateway.Gateway.Admin.Laws.{MayEnter, admin_gate-MayEnter}
use volta_gateway.Tests.Config.{entry}

abbrev wildcard : RoutingTable
wildcard = (text "*.example.org", route_info (entry (text "*.example.org") true)) ∷ []

exact : (a b : Text) → length a ≡ length b → (text_eq a b ≡ true) ↔ (a ≡ b)
exact a b same_length = text_eq_iff a b

with_token :
    admin_gate text_eq wildcard
      (some (text "s3"))
      (text "/admin/reload")
      (some (text "localhost"))
      (some (text "Bearer s3"))
      true
      true
    ≡ admitted
unfolding admin_gate admin_for_gateway is_routed decide constant_time_eq contains_key get
    normalize_host split_first split_once starts_with strip_prefix text_eq
with_token = refl

from_elsewhere :
    admin_gate text_eq wildcard
      (some (text "s3"))
      (text "/admin/reload")
      (some (text "localhost"))
      (some (text "Bearer s3"))
      false
      true
    ≡ refused 403
unfolding admin_gate admin_for_gateway is_routed contains_key get normalize_host split_first
    split_once starts_with strip_prefix text_eq
from_elsewhere = refl

admin_gate-MayEnter_example :
    (starts_with (text "/admin/") (text "/admin/reload") ≡ true)
    × (find_route wildcard (unwrap_or [] (map_option normalize_host (some (text "localhost"))))
        ≡ none)
    × (true ≡ true)
    × MayEnter (some (text "s3")) (some (text "Bearer s3")) true
admin_gate-MayEnter_example =
    admin_gate-MayEnter text_eq wildcard (some (text "s3")) (text "/admin/reload")
      (some (text "localhost")) (some (text "Bearer s3")) true true exact with_token

-- The gateway answers for the health of a host that only a wildcard covers.
wildcard_health :
    healthz wildcard (text "/healthz") (some (text "app.example.org")) false true ≡ some healthy
unfolding healthz healthz_status host_is_routed_raw normalize_host split_first contains_key get
    text_eq starts_with strip_prefix
wildcard_health = refl
