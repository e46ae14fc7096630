-- ===== src/Gateway/Rules.antt =====
-- Per-path authorisation rules: `AuthRule`, `AuthRuleAuth`, `ResolvedAuth` and `resolve_auth_rule`
-- of gateway/src/config.rs.
pub mod Laws
use volta_gateway.Prelude.{
  ℕ, Bool, true, false, Option, none, some, List, [], ◌∷◌, leb, if◌then◌else◌, and_then, find,
  length, Text, text, text_eq, strip_prefix, starts_with, ends_with_byte,
}

pub data AuthRuleAuth : Type 0 where
  public : Text → AuthRuleAuth
  role : Text → AuthRuleAuth

pub record AuthRule : Type 0 where
  pub prefix : Text
  pub match_mode : Text
  pub auth : AuthRuleAuth

pub data ResolvedAuth : Type 0 where
  public : ResolvedAuth
  require : Text → ResolvedAuth

unfoldable pub is_public : AuthRuleAuth → Bool
is_public (AuthRuleAuth.public s) = text_eq s (text "public")
is_public (role _) = false

unfoldable pub min_role : AuthRuleAuth → Option Text
min_role (AuthRuleAuth.public _) = none
min_role (role r) = some r

-- The test inside the loop.
unfoldable pub rule_matches : AuthRule → Text → Bool
rule_matches rule path =
    if text_eq rule.match_mode (text "exact")
    then text_eq path rule.prefix
    else if text_eq path rule.prefix
    then true
    else if ends_with_byte b'/' rule.prefix
    then starts_with rule.prefix path
    else elim (strip_prefix rule.prefix path) [
      | none ↦ false
      | some rest ↦ starts_with (text "/") rest
    ]

-- An unknown `auth` text asks for the highest role.
unfoldable pub resolve : AuthRule → ResolvedAuth
resolve rule =
    if is_public rule.auth
    then ResolvedAuth.public
    else elim (min_role rule.auth) [ some r ↦ require r | none ↦ require (text "OWNER") ]

-- `sort_by_key(Reverse(prefix.len()))`, which is stable: of two rules of one length the earlier one
-- stays in front.
unfoldable pub insert_rule : AuthRule → List AuthRule → List AuthRule
insert_rule r [] = r ∷ []
insert_rule r (s ∷ rs) =
    let rest = insert_rule r rs in
    if leb (length s.prefix) (length r.prefix) then r ∷ s ∷ rs else s ∷ rest

unfoldable pub sort_rules : List AuthRule → List AuthRule
sort_rules [] = []
sort_rules (r ∷ rs) = insert_rule r (sort_rules rs)

unfoldable pub resolve_auth_rule : List AuthRule → Text → Option ResolvedAuth
resolve_auth_rule rules path =
    and_then (find (λ r. rule_matches r path) (sort_rules rules)) (λ r. some (resolve r))
