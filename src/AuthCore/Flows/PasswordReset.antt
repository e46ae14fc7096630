-- ===== src/AuthCore/Flows/PasswordReset.antt =====
-- The reset of a password: auth-core/src/flow/password_reset.rs.
use volta_gateway.Prelude.{
  ◌≡◌, refl, subst, inl, inr, Bool, true, false, Option, some, ◌++◌, arith, unwrap_or, map_option,
  is_some, Option-cases, Text, text, text_is_eq,
}
use volta_gateway.AuthCore.Flows.{
  Exit, auto, external, stop, Definition, Reach, Reach-Inv, Keeps, next, external_step,
}

pub data PasswordResetState : Type 0 where
  requested token_issued send_requested sent token_verified password_changed completed cancelled :
      PasswordResetState

pub record PasswordResetInit : Type 0 where
  pub email : Text
  pub correlation_id : Text

-- `PasswordResetInit`, `ResetTokenIssued`, `ResetSendRequest`, and the flags of `ResetSendOutcome`,
-- `ResetTokenProof` and `PasswordChangedData`.
pub record PasswordResetContext : Type 0 where
  pub init : Option PasswordResetInit
  pub token_id : Option Text
  pub send_to : Option Text
  pub outcome : Option Bool
  pub proof : Option Bool
  pub changed : Option Bool

pub data PasswordResetInput : Type 0 where
  send_outcome token_proof password_change : Bool → PasswordResetInput

unfoldable pub inject_password_reset :
    PasswordResetInput → PasswordResetContext → PasswordResetContext
inject_password_reset (send_outcome b) c = record c { outcome = some b }
inject_password_reset (token_proof b) c = record c { proof = some b }
inject_password_reset (password_change b) c = record c { changed = some b }

-- `IssueResetTokenProcessor::process`.
unfoldable pub issue_reset_token : PasswordResetContext → Option PasswordResetContext
issue_reset_token c =
    map_option (λ i. record c { token_id = some (text "pending:" ++ i.correlation_id) }) c.init

-- `ResetRequestSendProcessor::process`.
unfoldable pub request_reset_send : PasswordResetContext → Option PasswordResetContext
request_reset_send c = map_option (λ i. record c { send_to = some i.email }) c.init

-- `CompleteResetProcessor::process`.
unfoldable pub complete_reset : PasswordResetContext → Option PasswordResetContext
complete_reset c = map_option (λ _. c) c.changed

unfoldable pub password_reset_exit :
    PasswordResetState → Exit PasswordResetState PasswordResetContext
password_reset_exit requested = auto issue_reset_token token_issued
password_reset_exit token_issued = auto request_reset_send send_requested
password_reset_exit send_requested = external (λ c. is_some c.outcome) sent
password_reset_exit sent = external (λ c. unwrap_or false c.proof) token_verified
password_reset_exit token_verified = external (λ c. unwrap_or false c.changed) password_changed
password_reset_exit password_changed = auto complete_reset completed
password_reset_exit completed = stop
password_reset_exit cancelled = stop

abbrev is_password_reset_terminal : PasswordResetState → Bool
is_password_reset_terminal completed = true
is_password_reset_terminal cancelled = true
is_password_reset_terminal _ = false

-- `build_password_reset_flow`.
unfoldable pub password_reset_flow :
    Definition PasswordResetState PasswordResetContext PasswordResetInput
unfolding password_reset_exit inject_password_reset
password_reset_flow = record {
  from = password_reset_exit;
  inject = inject_password_reset;
  is_terminal = is_password_reset_terminal;
  on_any_error = cancelled;
}

-- A mail was asked for, to the address of the request.
abbrev pub MailAsked : PasswordResetContext → Type 0
MailAsked c =
    (i : PasswordResetInit) × (c.init ≡ some i)
    × (c.send_to ≡ some i.email)
    × (c.token_id ≡ some (text "pending:" ++ i.correlation_id))

abbrev IssuedToken : PasswordResetContext → Type 0
IssuedToken c =
    (i : PasswordResetInit) × (c.init ≡ some i)
    × (c.token_id ≡ some (text "pending:" ++ i.correlation_id))

-- The token that came with the reset was accepted when it was submitted.
abbrev pub TokenAccepted : PasswordResetContext → Type 0
TokenAccepted c₀ =
    (a : PasswordResetContext) × Reach password_reset_flow requested c₀ token_verified a
    × (a.proof ≡ some true)

abbrev Known : PasswordResetContext → PasswordResetState → PasswordResetContext → Type 0
Known c₀ requested c = Unit
Known c₀ token_issued c = IssuedToken c
Known c₀ send_requested c = MailAsked c
Known c₀ sent c = MailAsked c
Known c₀ token_verified c = MailAsked c × TokenAccepted c₀
Known c₀ password_changed c = MailAsked c × TokenAccepted c₀ × (c.changed ≡ some true)
Known c₀ completed c = MailAsked c × TokenAccepted c₀ × (c.changed ≡ some true)
Known c₀ cancelled c = Unit

mail_kept :
    (d : PasswordResetInput) (c : PasswordResetContext)
    → MailAsked c
    → MailAsked (inject_password_reset d c)
unfolding inject_password_reset
mail_kept (send_outcome b) c m = m
mail_kept (token_proof b) c m = m
mail_kept (password_change b) c m = m

keeps :
    (c₀ : PasswordResetContext) (s : PasswordResetState)
    → Keeps password_reset_flow requested c₀ (Known c₀) s (password_reset_flow.from s)
unfolding password_reset_flow issue_reset_token request_reset_send complete_reset
keeps c₀ requested = λ c c' e i. elim (Option-cases c.init) [
  | inl absent ↦ absurd (ground arith)
  | inr (init, found) ↦ (init, ground arith, ground arith)
]
keeps c₀ token_issued =
    λ c c' e (init, found, token). (init, ground arith, ground arith, ground arith)
keeps c₀ send_requested = λ d c r m. (λ e. mail_kept d c m, λ e. mail_kept d c m)
keeps c₀ sent = λ d c r m. (
  λ e.
      (mail_kept d c m, (inject_password_reset d c, next r (external_step d refl e), ground arith)),
  λ e. mail_kept d c m,
)
keeps c₀ token_verified =
    λ d c r (m, a). (λ e. (mail_kept d c m, a, ground arith), λ e. (mail_kept d c m, a))
keeps c₀ password_changed = λ c c' e (m, a, changed).
    let same : c ≡ c' = ground arith in subst (Known c₀ completed) same (m, a, changed)
keeps c₀ completed = tt
keeps c₀ cancelled = tt

-- A completed reset asked for a mail to the address of the request, with a token of the request,
-- passed through a state in which a submitted token was accepted, and then changed the password.
pub password_reset_lem :
    (c c' : PasswordResetContext)
    → Reach password_reset_flow requested c completed c'
    → MailAsked c' × TokenAccepted c × (c'.changed ≡ some true)
unfolding password_reset_flow
password_reset_lem c c' r =
    Reach-Inv password_reset_flow requested c (Known c) (keeps c) (λ s a i. tt) tt r
