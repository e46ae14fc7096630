-- ===== src/AuthCore/Flows/EmailVerification.antt =====
-- The verification of an address: auth-core/src/flow/email_verification.rs.
use volta_gateway.Prelude.{
  ◌≡◌, refl, Bool, true, false, Option, some, arith, unwrap_or, map_option, Text, text_is_eq,
}
use volta_gateway.AuthCore.Flows.{
  Exit, auto, external, stop, Definition, Reach, Reach-Inv, Keeps, next, external_step,
}

pub data EmailVerificationState : Type 0 where
  token_issued send_requested sent verified cancelled : EmailVerificationState

pub record EmailVerificationInit : Type 0 where
  pub token_id : Text
  pub to : Text

-- `EmailVerificationInit`, `SendRequest`, and the flags of `SendOutcome` and `VerificationProof`.
pub record EmailVerificationContext : Type 0 where
  pub init : Option EmailVerificationInit
  pub send_to : Option Text
  pub outcome : Option Bool
  pub proof : Option Bool

pub data EmailVerificationInput : Type 0 where
  send_outcome verification_proof : Bool → EmailVerificationInput

unfoldable pub inject_email_verification :
    EmailVerificationInput → EmailVerificationContext → EmailVerificationContext
inject_email_verification (send_outcome b) c = record c { outcome = some b }
inject_email_verification (verification_proof b) c = record c { proof = some b }

-- `RequestSendProcessor::process`.
unfoldable pub request_send : EmailVerificationContext → Option EmailVerificationContext
request_send c = map_option (λ i. record c { send_to = some i.to }) c.init

unfoldable pub email_verification_exit :
    EmailVerificationState → Exit EmailVerificationState EmailVerificationContext
email_verification_exit token_issued = auto request_send send_requested
email_verification_exit send_requested = external (λ c. unwrap_or false c.outcome) sent
email_verification_exit sent = external (λ c. unwrap_or false c.proof) verified
email_verification_exit verified = stop
email_verification_exit cancelled = stop

abbrev is_email_verification_terminal : EmailVerificationState → Bool
is_email_verification_terminal verified = true
is_email_verification_terminal cancelled = true
is_email_verification_terminal _ = false

-- `build_email_verification_flow`.
unfoldable pub email_verification_flow :
    Definition EmailVerificationState EmailVerificationContext EmailVerificationInput
unfolding email_verification_exit inject_email_verification
email_verification_flow = record {
  from = email_verification_exit;
  inject = inject_email_verification;
  is_terminal = is_email_verification_terminal;
  on_any_error = cancelled;
}

-- The mail was reported as sent.
abbrev pub MailSent : EmailVerificationContext → Type 0
MailSent c₀ =
    (a : EmailVerificationContext) × Reach email_verification_flow token_issued c₀ sent a
    × (a.outcome ≡ some true)

abbrev Known : EmailVerificationContext → EmailVerificationState → EmailVerificationContext → Type 0
Known c₀ sent c = MailSent c₀
Known c₀ verified c = MailSent c₀ × (c.proof ≡ some true)
Known c₀ _ c = Unit

keeps :
    (c₀ : EmailVerificationContext) (s : EmailVerificationState)
    → Keeps email_verification_flow token_issued c₀ (Known c₀) s (email_verification_flow.from s)
unfolding email_verification_flow
keeps c₀ token_issued = λ c c' e i. tt
keeps c₀ send_requested = λ d c r i.
    (λ e. (inject_email_verification d c, next r (external_step d refl e), ground arith), λ e. tt)
keeps c₀ sent = λ d c r m. (λ e. (m, ground arith), λ e. m)
keeps c₀ verified = tt
keeps c₀ cancelled = tt

-- An address is verified only after the mail was reported as sent and with a verified token.
pub email_verified_lem :
    (c c' : EmailVerificationContext)
    → Reach email_verification_flow token_issued c verified c'
    → MailSent c × (c'.proof ≡ some true)
unfolding email_verification_flow
email_verified_lem c c' r =
    Reach-Inv email_verification_flow token_issued c (Known c) (keeps c) (λ s a i. tt) tt r
