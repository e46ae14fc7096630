-- ===== src/AuthCore/Flows/Registration.antt =====
-- Registration: auth-core/src/flow/registration.rs.
use volta_gateway.Prelude.{
  ◌≡◌, ◌⊎◌, refl, text_eq_iff, inl, inr, Bool, true, false, Option, some, [], ◌∷◌, ◌++◌, arith,
  unwrap_or, map_option, is_some, Text, text, text_is_eq,
}
use volta_gateway.AuthCore.Flows.{
  Exit, auto, external, branch, stop, Definition, Reach, Reach-Inv, Keeps,
}

pub data RegistrationState : Type 0 where
  start email_verification_pending email_verified mfa_setup_optional completed cancelled :
      RegistrationState

pub record RegistrationInit : Type 0 where
  pub email : Text
  pub correlation_id : Text

-- `RegistrationInit`, `VerificationIssued`, `EmailVerifiedData` (its address), `MfaChoice` (its
-- label) and `MfaSetupResult` (its flag).
pub record RegistrationContext : Type 0 where
  pub init : Option RegistrationInit
  pub token_id : Option Text
  pub email : Option Text
  pub choice : Option Text
  pub setup : Option Bool

pub data RegistrationInput : Type 0 where
  email_verified_data : Text → RegistrationInput
  mfa_choice : Text → RegistrationInput
  mfa_setup_result : Bool → RegistrationInput

unfoldable pub inject_registration : RegistrationInput → RegistrationContext → RegistrationContext
inject_registration (email_verified_data email) c = record c { email = some email }
inject_registration (mfa_choice label) c = record c { choice = some label }
inject_registration (mfa_setup_result enabled) c = record c { setup = some enabled }

-- `IssueVerificationProcessor::process`.
unfoldable pub issue_verification : RegistrationContext → Option RegistrationContext
issue_verification c =
    map_option (λ i. record c { token_id = some (text "pending:" ++ i.correlation_id) }) c.init

-- `MfaBranch::decide`.
unfoldable pub decide_setup : RegistrationContext → Text
decide_setup c = unwrap_or (text "skip") c.choice

unfoldable pub registration_exit : RegistrationState → Exit RegistrationState RegistrationContext
registration_exit start = auto issue_verification email_verification_pending
registration_exit email_verification_pending = external (λ c. is_some c.email) email_verified
registration_exit email_verified =
    branch decide_setup ((text "setup", mfa_setup_optional) ∷ (text "skip", completed) ∷ [])
registration_exit mfa_setup_optional = external (λ c. is_some c.setup) completed
registration_exit completed = stop
registration_exit cancelled = stop

abbrev is_registration_terminal : RegistrationState → Bool
is_registration_terminal completed = true
is_registration_terminal cancelled = true
is_registration_terminal _ = false

-- `build_registration_flow`.
unfoldable pub registration_flow :
    Definition RegistrationState RegistrationContext RegistrationInput
unfolding registration_exit inject_registration
registration_flow = record {
  from = registration_exit;
  inject = inject_registration;
  is_terminal = is_registration_terminal;
  on_any_error = cancelled;
}

abbrev Known : RegistrationState → RegistrationContext → Type 0
Known email_verified c = is_some c.email ≡ true
Known mfa_setup_optional c = is_some c.email ≡ true
Known completed c =
    (is_some c.email ≡ true) × ((decide_setup c ≡ text "skip") ⊎ (is_some c.setup ≡ true))
Known _ c = Unit

inject-IsVerified :
    (d : RegistrationInput) (c : RegistrationContext)
    → is_some c.email ≡ true
    → is_some (inject_registration d c).email ≡ true
unfolding inject_registration
inject-IsVerified (email_verified_data email) c h = refl
inject-IsVerified (mfa_choice label) c h = h
inject-IsVerified (mfa_setup_result enabled) c h = h

keeps :
    (c₀ : RegistrationContext) (s : RegistrationState)
    → Keeps registration_flow start c₀ Known s (registration_flow.from s)
unfolding registration_flow
keeps c₀ start = λ c c' e i. tt
keeps c₀ email_verification_pending = λ d c r i. (λ e. e, λ e. tt)
keeps c₀ email_verified = λ c i.
    (λ e. i, (λ e. (i, inl (ground (arith, text_eq_iff (text "skip") (decide_setup c)))), tt))
keeps c₀ mfa_setup_optional =
    λ d c r i. (λ e. (inject-IsVerified d c i, inr e), λ e. inject-IsVerified d c i)
keeps c₀ completed = tt
keeps c₀ cancelled = tt

-- A registration is completed only with a verified address, and with the result of setting up a
-- second factor unless that was skipped.
pub registration_completed_lem :
    (c c' : RegistrationContext)
    → Reach registration_flow start c completed c'
    → (is_some c'.email ≡ true) × ((decide_setup c' ≡ text "skip") ⊎ (is_some c'.setup ≡ true))
unfolding registration_flow
registration_completed_lem c c' r =
    Reach-Inv registration_flow start c Known (keeps c) (λ s a i. tt) tt r
