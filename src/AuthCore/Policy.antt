-- ===== src/AuthCore/Policy.antt =====
-- Role-based access control: auth-core/src/policy.rs.
-- A set of permissions is the list of what was inserted.
pub mod Laws
use volta_gateway.Prelude.{
  ℕ, zero, suc, Bool, true, false, Option, none, some, List, [], ◌∷◌, ◌++◌, leb, if◌then◌else◌, any,
  Text, text, text_eq, text_is_eq, unwrap_or, map_option, u64_max,
}
use volta_gateway.Prelude.Dict.{Dict, get}

pub data PolicyResult : Type 0 where
  allow : PolicyResult
  deny : Text → PolicyResult
  require_mfa : PolicyResult
  require_reauth : PolicyResult

pub record PolicyEngine : Type 0 where
  -- Highest first.
  pub hierarchy : List Text
  pub effective_permissions : Dict Text (List Text)

-- What each role is given beyond the role below it, and its whole set.
abbrev viewer_permissions : List Text
viewer_permissions = text "read_only" ∷ []

abbrev member_added : List Text
member_added =
    text "use_apps"
    ∷ text "view_own_profile"
    ∷ text "update_own_profile"
    ∷ text "manage_own_sessions"
    ∷ text "view_tenant_members"
    ∷ text "switch_tenant"
    ∷ text "accept_invitation"
    ∷ []

abbrev member_permissions : List Text
member_permissions = viewer_permissions ++ member_added

abbrev operator_added : List Text
operator_added =
    text "operate_services"
    ∷ text "view_service_logs"
    ∷ text "restart_services"
    ∷ text "access_terminal"
    ∷ []

abbrev operator_permissions : List Text
operator_permissions = member_permissions ++ operator_added

abbrev admin_added : List Text
admin_added =
    text "invite_members"
    ∷ text "remove_members"
    ∷ text "change_member_role"
    ∷ text "view_invitations"
    ∷ text "create_invitations"
    ∷ text "cancel_invitations"
    ∷ text "change_tenant_name"
    ∷ text "view_audit_logs"
    ∷ []

abbrev admin_permissions : List Text
admin_permissions = operator_permissions ++ admin_added

abbrev owner_added : List Text
owner_added =
    text "delete_tenant"
    ∷ text "transfer_ownership"
    ∷ text "manage_signing_keys"
    ∷ text "change_tenant_slug"
    ∷ []

abbrev owner_permissions : List Text
owner_permissions = admin_permissions ++ owner_added

unfoldable pub default_policy : PolicyEngine
default_policy = record {
  hierarchy = text "OWNER" ∷ text "ADMIN" ∷ text "OPERATOR" ∷ text "MEMBER" ∷ text "VIEWER" ∷ [];
  effective_permissions =
      (text "VIEWER", viewer_permissions)
      ∷ (text "MEMBER", member_permissions)
      ∷ (text "OPERATOR", operator_permissions)
      ∷ (text "ADMIN", admin_permissions)
      ∷ (text "OWNER", owner_permissions)
      ∷ [];
}

-- `Vec::contains` and `HashSet::contains`.
abbrev pub contains : Text → List Text → Bool
contains x xs = any (λ y. text_eq y x) xs

-- `Iterator::position`.
unfoldable pub position : Text → List Text → Option ℕ
position x [] = none
position x (y ∷ ys) =
    let later = map_option suc (position x ys) in if text_eq y x then some 0 else later

unfoldable pub can : PolicyEngine → Text → Text → Bool
can engine role permission =
    unwrap_or false (map_option (contains permission) (get role engine.effective_permissions))

unfoldable pub can_any : PolicyEngine → List Text → Text → Bool
can_any engine roles permission = any (λ r. can engine r permission) roles

-- 0 is the highest; `usize::MAX` if the role is unknown.
unfoldable pub rank : PolicyEngine → Text → ℕ
rank engine role = unwrap_or u64_max (position role engine.hierarchy)

unfoldable pub is_at_least : PolicyEngine → Text → Text → Bool
is_at_least engine role_a role_b = leb (rank engine role_a) (rank engine role_b)

unfoldable pub is_known_role : PolicyEngine → Text → Bool
is_known_role engine role = contains role engine.hierarchy

-- `<[String]>::join`.
unfoldable pub join : Text → List Text → Text
join sep [] = []
join sep (x ∷ []) = x
join sep (x ∷ y ∷ ys) = x ++ sep ++ join sep (y ∷ ys)

unfoldable pub enforce_min_role : PolicyEngine → List Text → Text → PolicyResult
enforce_min_role engine roles min_role =
    if is_known_role engine min_role
    then if any (λ r. is_at_least engine r min_role) roles
      then allow
      else deny (text "minimum role '" ++ min_role ++ text "' required")
    else deny (
        text "unknown role '"
        ++ min_role
        ++ text "' required (known: "
        ++ join (text " > ") engine.hierarchy
        ++ text ")")

unfoldable pub enforce_permission : PolicyEngine → List Text → Text → PolicyResult
enforce_permission engine roles permission =
    if can_any engine roles permission
    then allow
    else deny (text "permission '" ++ permission ++ text "' denied")
