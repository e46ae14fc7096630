-- ===== src/AuthCore/Flows/Mfa.antt =====
-- The second factor: auth-core/src/flow/mfa.rs.
use volta_gateway.Prelude.{
  ◌≡◌, Bool, true, false, Option, some, unwrap_or, map_option, Text, text_is_eq,
}
use volta_gateway.AuthCore.Flows.{Exit, external, stop, Definition, Reach, Reach-Inv, Keeps}

pub data MfaState : Type 0 where
  challenge_shown verified terminal_error expired : MfaState

pub record MfaCode : Type 0 where
  pub code : Text
  pub valid : Bool

pub record MfaContext : Type 0 where
  pub session_id : Text
  pub method : Text
  pub submitted : Option MfaCode

-- `MfaCodeGuard::validate`.
unfoldable pub check_mfa_code : MfaContext → Bool
check_mfa_code c = unwrap_or false (map_option (λ d. d.valid) c.submitted)

unfoldable pub mfa_exit : MfaState → Exit MfaState MfaContext
mfa_exit challenge_shown = external check_mfa_code verified
mfa_exit verified = stop
mfa_exit terminal_error = stop
mfa_exit expired = stop

abbrev is_mfa_terminal : MfaState → Bool
is_mfa_terminal challenge_shown = false
is_mfa_terminal _ = true

-- `build_mfa_flow`.
unfoldable pub mfa_flow : Definition MfaState MfaContext MfaCode
unfolding mfa_exit
mfa_flow = record {
  from = mfa_exit;
  inject = λ d c. record c { submitted = some d };
  is_terminal = is_mfa_terminal;
  on_any_error = terminal_error;
}

-- What is known of the context in each state.
abbrev pub Progress : MfaState → MfaContext → Type 0
Progress verified c = check_mfa_code c ≡ true
Progress expired c = ⊥
Progress _ c = Unit

keeps :
    (c₀ : MfaContext) (s : MfaState)
    → Keeps mfa_flow challenge_shown c₀ Progress s (mfa_flow.from s)
unfolding mfa_flow
keeps c₀ challenge_shown = λ d c r i. (λ e. e, λ e. tt)
keeps c₀ verified = tt
keeps c₀ terminal_error = tt
keeps c₀ expired = tt

-- From the challenge the flow gets to `verified` only with a valid code in its context, and by no step to
-- `expired`.
pub mfa_flow_lem :
    (c c' : MfaContext) (s : MfaState) → Reach mfa_flow challenge_shown c s c' → Progress s c'
unfolding mfa_flow
mfa_flow_lem c c' s r = Reach-Inv mfa_flow challenge_shown c Progress (keeps c) (λ s c i. tt) tt r
