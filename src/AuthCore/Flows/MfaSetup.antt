-- ===== src/AuthCore/Flows/MfaSetup.antt =====
-- The set-up of a second factor: auth-core/src/flow/mfa_setup.rs.
use volta_gateway.Prelude.{
  ◌≡◌, Bool, true, false, Option, some, arith, unwrap_or, map_option, is_some, Text, text,
  text_is_eq, ℕ,
}
use volta_gateway.AuthCore.Flows.{Exit, auto, external, stop, Definition, Reach, Reach-Inv, Keeps}

pub data MfaSetupState : Type 0 where
  not_configured setup_started secret_issued confirmation_pending enabled recovery_codes_issued
        cancelled :
      MfaSetupState

-- `MfaSetupInit` (its user and method), `SetupStart` (its method), `TotpSecretIssued`,
-- `SecretPresented`, `ConfirmResult` (its flag) and `RecoveryCodesResult` (its count).
pub record MfaSetupContext : Type 0 where
  pub init : Option (Text × Text)
  pub start : Option Text
  pub secret_ref : Option Text
  pub presented : Option Text
  pub confirm : Option Bool
  pub recovery : Option ℕ

-- What comes from outside.
pub data MfaSetupInput : Type 0 where
  setup_start : Text → MfaSetupInput
  confirm_result : Bool → MfaSetupInput

unfoldable pub inject_mfa_setup : MfaSetupInput → MfaSetupContext → MfaSetupContext
inject_mfa_setup (setup_start method) c = record c { start = some method }
inject_mfa_setup (confirm_result confirmed) c = record c { confirm = some confirmed }

-- `IssueSecretProcessor`, `PresentSecretProcessor`, `ConfirmCodeGuard`, `IssueRecoveryCodesProcessor`.
unfoldable pub issue_secret : MfaSetupContext → Option MfaSetupContext
issue_secret c = map_option (λ _. record c { secret_ref = some (text "pending") }) c.init

unfoldable pub present_secret : MfaSetupContext → Option MfaSetupContext
present_secret c = map_option (λ _. record c { presented = some (text "pending") }) c.secret_ref

unfoldable pub confirm_code : MfaSetupContext → Bool
confirm_code c = unwrap_or false c.confirm

unfoldable pub issue_recovery_codes : MfaSetupContext → Option MfaSetupContext
issue_recovery_codes c = map_option (λ _. record c { recovery = some 10 }) c.confirm

unfoldable pub mfa_setup_exit : MfaSetupState → Exit MfaSetupState MfaSetupContext
mfa_setup_exit not_configured = external (λ c. is_some c.start) setup_started
mfa_setup_exit setup_started = auto issue_secret secret_issued
mfa_setup_exit secret_issued = auto present_secret confirmation_pending
mfa_setup_exit confirmation_pending = external confirm_code enabled
mfa_setup_exit enabled = auto issue_recovery_codes recovery_codes_issued
mfa_setup_exit recovery_codes_issued = stop
mfa_setup_exit cancelled = stop

abbrev is_mfa_setup_terminal : MfaSetupState → Bool
is_mfa_setup_terminal recovery_codes_issued = true
is_mfa_setup_terminal cancelled = true
is_mfa_setup_terminal _ = false

-- `build_mfa_setup_flow`.
unfoldable pub mfa_setup_flow : Definition MfaSetupState MfaSetupContext MfaSetupInput
unfolding mfa_setup_exit inject_mfa_setup
mfa_setup_flow = record {
  from = mfa_setup_exit;
  inject = inject_mfa_setup;
  is_terminal = is_mfa_setup_terminal;
  on_any_error = cancelled;
}

abbrev Known : MfaSetupState → MfaSetupContext → Type 0
Known enabled c = c.confirm ≡ some true
Known recovery_codes_issued c = (c.confirm ≡ some true) × (c.recovery ≡ some 10)
Known _ c = Unit

keeps :
    (c₀ : MfaSetupContext) (s : MfaSetupState)
    → Keeps mfa_setup_flow not_configured c₀ Known s (mfa_setup_flow.from s)
unfolding mfa_setup_flow issue_secret present_secret confirm_code issue_recovery_codes
keeps c₀ not_configured = λ d c r i. (λ e. tt, λ e. tt)
keeps c₀ setup_started = λ c c' e i. tt
keeps c₀ secret_issued = λ c c' e i. tt
keeps c₀ confirmation_pending = λ d c r i. (λ e. ground arith, λ e. tt)
keeps c₀ enabled = λ c c' e i. ground arith
keeps c₀ recovery_codes_issued = tt
keeps c₀ cancelled = tt

-- Recovery codes are issued only after a confirmed code, and they are ten.
pub recovery_codes_issued_lem :
    (c c' : MfaSetupContext)
    → Reach mfa_setup_flow not_configured c recovery_codes_issued c'
    → (c'.confirm ≡ some true) × (c'.recovery ≡ some 10)
unfolding mfa_setup_flow
recovery_codes_issued_lem c c' r =
    Reach-Inv mfa_setup_flow not_configured c Known (keeps c) (λ s c i. tt) tt r
