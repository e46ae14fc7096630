-- ===== src/AuthCore/Flows/Invite.antt =====
-- Invitations: auth-core/src/flow/invite.rs. Addresses are ASCII.
use volta_gateway.Prelude.{
  ◌≡◌, ◌⊎◌, refl, subst, eq_ignore_case, inl, inr, Bool, true, false, Option, some, [], ◌∷◌, arith,
  if◌then◌else◌, unwrap_or, map_option, Option-cases, and_then, Text, text, text_eq, text_is_eq,
}
use volta_gateway.AuthCore.Flows.{
  Exit, auto, external, branch, stop, Definition, Reach, Reach-Inv, Keeps,
}

pub data InviteState : Type 0 where
  consent_shown account_switching accepted complete terminal_error expired : InviteState

pub record InviteData : Type 0 where
  pub invite_code : Text
  pub invite_email : Option Text
  pub current_user_email : Text
  pub tenant_id : Text

pub record InviteResult : Type 0 where
  pub user_id : Text
  pub tenant_id : Text
  pub role : Text

-- `InviteData`, `InviteAcceptance` (its flag) and `InviteResult`.
pub record InviteContext : Type 0 where
  pub invite : Option InviteData
  pub acceptance : Option Bool
  pub result : Option InviteResult

-- The invitation is for the address of the current user.
unfoldable pub is_own : InviteContext → Bool
is_own c = unwrap_or false (
    and_then c.invite
      (λ i. map_option (λ email. eq_ignore_case email i.current_user_email) i.invite_email))

-- `EmailMatchBranch::decide`.
unfoldable pub decide_account : InviteContext → Text
decide_account c = if is_own c then text "match" else text "switch"

-- `InviteCompleteProcessor::process`.
unfoldable pub complete_invite : InviteContext → Option InviteContext
complete_invite c =
    map_option
      (λ i. record c {
        result = some (record { user_id = []; tenant_id = i.tenant_id; role = text "MEMBER" });
      })
      c.invite

unfoldable pub invite_exit : InviteState → Exit InviteState InviteContext
invite_exit consent_shown =
    branch decide_account ((text "match", accepted) ∷ (text "switch", account_switching) ∷ [])
invite_exit account_switching = external (λ c. unwrap_or false c.acceptance) accepted
invite_exit accepted = auto complete_invite complete
invite_exit complete = stop
invite_exit terminal_error = stop
invite_exit expired = stop

abbrev is_invite_terminal : InviteState → Bool
is_invite_terminal complete = true
is_invite_terminal terminal_error = true
is_invite_terminal expired = true
is_invite_terminal _ = false

-- `build_invite_flow`.
unfoldable pub invite_flow : Definition InviteState InviteContext Bool
unfolding invite_exit
invite_flow = record {
  from = invite_exit;
  inject = λ b c. record c { acceptance = some b };
  is_terminal = is_invite_terminal;
  on_any_error = terminal_error;
}

abbrev MayJoin : InviteContext → Type 0
MayJoin c = (is_own c ≡ true) ⊎ (c.acceptance ≡ some true)

-- The user joins the tenant of the invitation as a member.
abbrev pub Joins : InviteContext → Type 0
Joins c =
    (i : InviteData) × (r : InviteResult) × (c.invite ≡ some i)
    × (c.result ≡ some r)
    × (r.tenant_id ≡ i.tenant_id)
    × (r.role ≡ text "MEMBER")

abbrev Known : InviteState → InviteContext → Type 0
Known accepted c = MayJoin c
Known complete c = MayJoin c × Joins c
Known expired c = ⊥
Known _ c = Unit

keeps :
    (c₀ : InviteContext) (s : InviteState)
    → Keeps invite_flow consent_shown c₀ Known s (invite_flow.from s)
unfolding invite_flow decide_account complete_invite text_eq is_own
keeps c₀ consent_shown = λ c i. (λ e. inl (ground arith), (λ e. tt, tt))
keeps c₀ account_switching = λ d c r i. (λ e. inr (ground arith), λ e. tt)
keeps c₀ accepted = λ c c' e i. elim (Option-cases c.invite) [
  | inl absent ↦ absurd (ground arith)
  | inr (invite, found) ↦
      let result : InviteResult = record {
        user_id = [];
        tenant_id = invite.tenant_id;
        role = text "MEMBER";
      } in
      let done : record c { result = some result } ≡ c' = ground arith in
      subst (Known complete) done (i, (invite, result, found, refl, refl, refl))
]
keeps c₀ complete = tt
keeps c₀ terminal_error = tt
keeps c₀ expired = tt

-- An invitation is completed only if it is for the address of the current user or was accepted, and
-- the user then joins the tenant of the invitation as a member.
pub invite_complete_lem :
    (c c' : InviteContext)
    → Reach invite_flow consent_shown c complete c'
    → ((is_own c' ≡ true) ⊎ (c'.acceptance ≡ some true)) × Joins c'
unfolding invite_flow
invite_complete_lem c c' r =
    Reach-Inv invite_flow consent_shown c Known (keeps c) (λ s a i. tt) tt r
