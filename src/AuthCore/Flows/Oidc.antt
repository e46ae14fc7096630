-- ===== src/AuthCore/Flows/Oidc.antt =====
-- Signing in at a provider: auth-core/src/flow/oidc.rs.
use volta_gateway.Prelude.{
  ◌≡◌, refl, subst, inl, inr, Bool, true, false, Option, none, some, List, [], ◌∷◌, ◌++◌, arith,
  if◌then◌else◌, map_option, is_some, Option-cases, and_then, or_else, Text, text, text_eq,
  text_is_eq,
}
use volta_gateway.AuthCore.Flows.{
  Exit, auto, external, branch, stop, Definition, Reach, Reach-Inv, Keeps,
}
use volta_gateway.Prelude.{is_empty}

pub data OidcState : Type 0 where
  init redirected callback_received token_exchanged user_resolved risk_checked : OidcState
  complete complete_mfa_pending blocked terminal_error : OidcState

pub record OidcInitData : Type 0 where
  pub provider : Text
  pub redirect_uri : Text
  pub state : Text
  pub nonce : Text
  pub app_id : Option Text

pub record OidcCallbackData : Type 0 where
  pub code : Text
  pub state : Text

pub record OidcTokenData : Type 0 where
  pub access_token : Text
  pub id_token : Option Text
  pub refresh_token : Option Text

pub record OidcUserData : Type 0 where
  pub user_id : Text
  pub email : Text
  pub display_name : Text
  pub tenant_id : Text
  pub roles : List Text
  pub is_new_user : Bool

pub record RiskCheckResult : Type 0 where
  pub risk_level : Text
  pub mfa_required : Bool
  pub blocked : Bool

pub record OidcContext : Type 0 where
  pub init : Option OidcInitData
  pub callback : Option OidcCallbackData
  pub token : Option OidcTokenData
  pub user : Option OidcUserData
  pub risk : Option RiskCheckResult

-- What a caller may put into the context when it resumes the flow.
pub record OidcInput : Type 0 where
  pub callback : Option OidcCallbackData
  pub token : Option OidcTokenData
  pub user : Option OidcUserData

abbrev pub inject_oidc : OidcInput → OidcContext → OidcContext
inject_oidc d c = record c {
  callback = or_else d.callback c.callback;
  token = or_else d.token c.token;
  user = or_else d.user c.user;
}

-- `OidcInitProcessor::process`.
unfoldable pub check_init : OidcContext → Option OidcContext
check_init c =
    and_then c.init
      (λ i. if is_empty i.provider then none else if is_empty i.redirect_uri then none else some c)

-- `TokenExchangeProcessor::process`.
unfoldable pub exchange_token : OidcContext → Option OidcContext
exchange_token c = and_then c.callback (λ cb. if is_empty cb.code then none else elim c.token [
  | some token ↦ if is_empty token.access_token then none else some c
  | none ↦ some (record c {
    token =
        some
          (record { access_token = text "at-" ++ cb.code; id_token = none; refresh_token = none });
  })
])

abbrev no_user : OidcUserData
no_user = record {
  user_id = [];
  email = [];
  display_name = [];
  tenant_id = [];
  roles = [];
  is_new_user = false;
}

-- `UserResolveProcessor::process`.
unfoldable pub resolve_user : OidcContext → Option OidcContext
resolve_user c = and_then c.token (λ _. elim c.user [
  | some user ↦ if is_empty user.email then none else if is_empty user.user_id then none else some c
  | none ↦ some (record c { user = some no_user })
])

abbrev pub low_risk : RiskCheckResult
low_risk = record { risk_level = text "low"; mfa_required = false; blocked = false }

-- `RiskCheckProcessor::process`.
unfoldable pub check_risk : OidcContext → Option OidcContext
check_risk c = map_option (λ _. record c { risk = some low_risk }) c.user

-- `RiskBranch::decide`.
unfoldable pub decide_risk : OidcContext → Text
decide_risk c = elim c.risk [
  | some risk ↦
      if risk.blocked
      then text "blocked"
      else if risk.mfa_required
      then text "mfa_pending"
      else text "complete"
  | none ↦ text "complete"
]

unfoldable pub oidc_exit : OidcState → Exit OidcState OidcContext
oidc_exit init = auto check_init redirected
oidc_exit redirected = external (λ c. is_some c.callback) callback_received
oidc_exit callback_received = auto exchange_token token_exchanged
oidc_exit token_exchanged = auto resolve_user user_resolved
oidc_exit user_resolved = auto check_risk risk_checked
oidc_exit risk_checked = branch decide_risk (
    (text "complete", complete)
    ∷ (text "mfa_pending", complete_mfa_pending)
    ∷ (text "blocked", blocked)
    ∷ [])
oidc_exit complete = stop
oidc_exit complete_mfa_pending = stop
oidc_exit blocked = stop
oidc_exit terminal_error = stop

abbrev is_oidc_terminal : OidcState → Bool
is_oidc_terminal complete = true
is_oidc_terminal complete_mfa_pending = true
is_oidc_terminal blocked = true
is_oidc_terminal terminal_error = true
is_oidc_terminal _ = false

-- `build_oidc_flow`.
unfoldable pub oidc_flow : Definition OidcState OidcContext OidcInput
unfolding oidc_exit
oidc_flow = record {
  from = oidc_exit;
  inject = inject_oidc;
  is_terminal = is_oidc_terminal;
  on_any_error = terminal_error;
}

abbrev pub HasProvider : OidcContext → Type 0
HasProvider c =
    (i : OidcInitData) × (c.init ≡ some i)
    × (is_empty i.provider ≡ false)
    × (is_empty i.redirect_uri ≡ false)

abbrev pub HasToken : OidcContext → Type 0
HasToken c =
    (cb : OidcCallbackData) × (token : OidcTokenData) × (c.callback ≡ some cb)
    × (is_empty cb.code ≡ false)
    × (c.token ≡ some token)
    × (is_empty token.access_token ≡ false)

-- What the flow has in each state.
abbrev pub Progress : OidcState → OidcContext → Type 0
Progress init c = Unit
Progress redirected c = HasProvider c
Progress callback_received c = HasProvider c
Progress token_exchanged c = HasProvider c × HasToken c
Progress user_resolved c = (HasProvider c × HasToken c) × (is_some c.user ≡ true)
Progress risk_checked c =
    ((HasProvider c × HasToken c) × (is_some c.user ≡ true)) × (c.risk ≡ some low_risk)
Progress complete c = (HasProvider c × HasToken c) × (is_some c.user ≡ true)
Progress complete_mfa_pending c = ⊥
Progress blocked c = ⊥
Progress terminal_error c = Unit

check_init-HasProvider : (c c' : OidcContext) → check_init c ≡ some c' → HasProvider c'
unfolding check_init
check_init-HasProvider c c' e = elim (Option-cases c.init) [
  | inl absent ↦ absurd (ground arith)
  | inr (i, found) ↦ (i, ground arith, ground arith, ground arith)
]

exchange_token-HasToken : (c c' : OidcContext) → exchange_token c ≡ some c' → HasToken c'
unfolding exchange_token
exchange_token-HasToken c c' e = elim (Option-cases c.callback) [
  | inl absent ↦ absurd (ground arith)
  | inr (cb, found) ↦ elim (Option-cases c.token) [
    | inr (token, filled) ↦ (cb, token, ground arith, ground arith, ground arith, ground arith)
    | inl unfilled ↦
        let made : OidcTokenData = record {
          access_token = text "at-" ++ cb.code;
          id_token = none;
          refresh_token = none;
        } in
        let done : record c { token = some made } ≡ c' = ground arith in
        subst HasToken done (cb, made, found, ground arith, refl, refl)
  ]
]

exchange_token-HasProvider :
    (c c' : OidcContext) → exchange_token c ≡ some c' → HasProvider c → HasProvider c'
unfolding exchange_token
exchange_token-HasProvider c c' e (i, found, p, u) = (i, ground arith, p, u)

resolve_user-Progress :
    (c c' : OidcContext)
    → resolve_user c ≡ some c'
    → Progress token_exchanged c
    → Progress user_resolved c'
unfolding resolve_user
resolve_user-Progress c c' e ((i, found, p, u), (cb, token, received, q, filled, v)) =
    (((i, ground arith, p, u), (cb, token, ground arith, q, ground arith, v)), ground arith)

check_risk-Progress :
    (c c' : OidcContext)
    → check_risk c ≡ some c'
    → Progress user_resolved c
    → Progress risk_checked c'
unfolding check_risk
check_risk-Progress c c' e (((i, found, p, u), (cb, token, received, q, filled, v)), w) = (
  (((i, ground arith, p, u), (cb, token, ground arith, q, ground arith, v)), ground arith),
  ground arith,
)

keeps : (c₀ : OidcContext) (s : OidcState) → Keeps oidc_flow init c₀ Progress s (oidc_flow.from s)
unfolding oidc_flow decide_risk text_eq
keeps c₀ init = λ c c' e i. check_init-HasProvider c c' e
keeps c₀ redirected = λ d c r i. (λ e. i, λ e. i)
keeps c₀ callback_received =
    λ c c' e i. (exchange_token-HasProvider c c' e i, exchange_token-HasToken c c' e)
keeps c₀ token_exchanged = resolve_user-Progress
keeps c₀ user_resolved = check_risk-Progress
keeps c₀ risk_checked = λ c i.
    let label : decide_risk c ≡ text "complete" = ground arith in
    (λ e. i.0, (λ e. absurd (ground arith), (λ e. absurd (ground arith), tt)))
keeps c₀ complete = tt
keeps c₀ complete_mfa_pending = tt
keeps c₀ blocked = tt
keeps c₀ terminal_error = tt

-- In each state the flow has what its steps so far ask for: complete, it has a provider and a place
-- to return to, a code from the callback, a token that is not empty, and a user; and it never gets
-- to the states for a blocked user or a second factor.
pub oidc_flow_lem :
    (c c' : OidcContext) (s : OidcState) → Reach oidc_flow init c s c' → Progress s c'
unfolding oidc_flow
oidc_flow_lem c c' s r = Reach-Inv oidc_flow init c Progress (keeps c) (λ s a i. tt) tt r
