-- ===== src/Gateway/Admin/Laws.antt =====
-- Who gets through to the handlers for administrators.
use volta_gateway.Prelude.{
  ◌≡◌, ◌⊎◌, ◌↔◌, refl, inl, inr, Bool, true, false, not, ◌&&◌, Option, none, some, [], ◌++◌, arith,
  length, unwrap_or, map_option, is_some, Text, text, text_is_eq, strip_prefix, append-strip_prefix,
  starts_with, Bool-cases, Option-cases,
}
use volta_gateway.Prelude.Dict.{get, contains_key}
use volta_gateway.Gateway.Routing.{RoutingTable, find_route, normalize_host, split_once}
use volta_gateway.Gateway.Admin.{
  allow, is_routed, admin_for_gateway, admitted, constant_time_eq, decide, admin_gate,
}

-- The host counts as routed exactly if the proxy finds a route for it.
is_routed-find_route :
    (routing : RoutingTable) (host : Text)
    → is_routed routing host ≡ is_some (find_route routing host)
unfolding is_routed find_route contains_key
is_routed-find_route routing host = elim (Option-cases (get host routing)) [
  | inl missed ↦ elim (Option-cases (split_once b'.' host)) [
    | inl no_dot ↦ ground arith
    | inr (cut, found) ↦ ground arith
  ]
  | inr (info, found) ↦ ground arith
]

-- The bearer of the token, or a reader if there is none.
abbrev pub MayEnter : Option Text → Option Text → Bool → Type 0
MayEnter token auth_header is_mutating =
    ((t : Text) × (token ≡ some t) × (auth_header ≡ some (text "Bearer " ++ t)))
    ⊎ ((token ≡ none) × (is_mutating ≡ false))

module _ (ct_eq : Text → Text → Bool) where
  decide-MayEnter :
      (token auth_header : Option Text) (is_mutating : Bool)
      → ((a b : Text) → length a ≡ length b → (ct_eq a b ≡ true) ↔ (a ≡ b))
      → decide ct_eq token auth_header is_mutating ≡ allow
      → MayEnter token auth_header is_mutating
  unfolding decide constant_time_eq
  decide-MayEnter none auth_header is_mutating exact h = inr (refl, ground arith)
  decide-MayEnter (some t) none is_mutating exact h = absurd (ground arith)
  decide-MayEnter (some t) (some v) is_mutating exact h =
      elim (Option-cases (strip_prefix (text "Bearer ") v)) [
        | inl other ↦ absurd (ground arith)
        | inr (token, form) ↦
            let same_length : length token ≡ length t = ground arith in
            let same : token ≡ t = (exact token t same_length).0 (ground arith) in
            let shape = append-strip_prefix (text "Bearer ") v token form in
            inl (t, refl, ground arith)
      ]

  -- A request gets through to the handlers for administrators only if its path begins with /admin/, the
  -- proxy has no route for its host, its peer is the local host, and it bears the token of the
  -- gateway, or there is no token and it is a GET, if the comparison of texts of one length is exact.
  pub admin_gate-MayEnter :
      (routing : RoutingTable) (token : Option Text) (path : Text) (host auth_header : Option Text)
      (is_loopback is_mutating : Bool)
      → ((a b : Text) → length a ≡ length b → (ct_eq a b ≡ true) ↔ (a ≡ b))
      → admin_gate ct_eq routing token path host auth_header is_loopback is_mutating ≡ admitted
      → (starts_with (text "/admin/") path ≡ true)
        × (find_route routing (unwrap_or [] (map_option normalize_host host)) ≡ none)
        × (is_loopback ≡ true)
        × MayEnter token auth_header is_mutating
  unfolding admin_gate admin_for_gateway
  admin_gate-MayEnter routing token path host auth_header is_loopback is_mutating exact h =
      let name = unwrap_or [] (map_option normalize_host host) in
      let routed = is_routed-find_route routing name in
      elim (Bool-cases (starts_with (text "/admin/") path && not (is_routed routing name))) [
        | inr elsewhere ↦ absurd (ground arith)
        | inl own ↦ elim (Bool-cases is_loopback) [
          | inr remote ↦ absurd (ground arith)
          | inl local ↦
              let entered : decide ct_eq token auth_header is_mutating ≡ allow = ground arith in
              (
                ground arith,
                ground (arith, Option-cases (find_route routing name)),
                local,
                decide-MayEnter token auth_header is_mutating exact entered,
              )
        ]
      ]
