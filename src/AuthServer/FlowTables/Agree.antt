-- ===== src/AuthServer/FlowTables/Agree.antt =====
-- The tables against the definitions of the flows (auth-core/src/flow), which they repeat by hand.
use volta_gateway.Prelude.{arith, ◌≡◌, true, ◌∷◌, map, All, Text, text, text_eq}
use volta_gateway.AuthCore.Descriptor.{targets, contains}
use volta_gateway.AuthCore.Flows.{Definition, exit_targets}
use volta_gateway.AuthServer.FlowTables.{FlowView}
use volta_gateway.AuthServer.FlowTables.First.{mfa_view, invite_view}
use volta_gateway.AuthServer.FlowTables.Second.{
  login_challenge_view, mfa_setup_view, password_reset_view, email_verification_view,
  registration_view,
}
use volta_gateway.AuthCore.Flows.LoginChallenge
use volta_gateway.AuthCore.Flows.LoginChallenge.{LoginChallengeState, login_challenge_flow}
use volta_gateway.AuthCore.Flows.MfaSetup
use volta_gateway.AuthCore.Flows.MfaSetup.{MfaSetupState, mfa_setup_flow}
use volta_gateway.AuthCore.Flows.PasswordReset
use volta_gateway.AuthCore.Flows.PasswordReset.{PasswordResetState, password_reset_flow}
use volta_gateway.AuthCore.Flows.EmailVerification
use volta_gateway.AuthCore.Flows.EmailVerification.{EmailVerificationState, email_verification_flow}
use volta_gateway.AuthCore.Flows.Registration
use volta_gateway.AuthCore.Flows.Registration.{RegistrationState, registration_flow}
use volta_gateway.AuthCore.Flows.Mfa
use volta_gateway.AuthCore.Flows.Mfa.{MfaState, mfa_flow}
use volta_gateway.AuthCore.Flows.Invite
use volta_gateway.AuthCore.Flows.Invite.{InviteState, invite_flow}

-- Every exit of the state is an edge of the table, and the table has it as a terminal state if it is.
abbrev pub CoversAt : {S C E : Type 0} → Definition S C E → (S → Text) → FlowView → S → Type 0
CoversAt d name f s =
    All (λ t. contains (targets f.edges (name s)) (name t) ≡ true) (exit_targets (d.from s))
    × (contains f.terminals (name s) ≡ d.is_terminal s)

-- And every edge of the table is an exit of the state, or leads to the state for errors.
abbrev pub AgreesAt : {S C E : Type 0} → Definition S C E → (S → Text) → FlowView → S → Type 0
AgreesAt d name f s =
    CoversAt d name f s
    × All (λ x. contains (map name (d.on_any_error ∷ exit_targets (d.from s))) x ≡ true)
        (targets f.edges (name s))

abbrev pub login_challenge_name : LoginChallengeState → Text
login_challenge_name LoginChallenge.password_accepted = text "PASSWORD_ACCEPTED"
login_challenge_name LoginChallenge.mfa_required = text "MFA_REQUIRED"
login_challenge_name LoginChallenge.challenge_sent = text "CHALLENGE_SENT"
login_challenge_name LoginChallenge.challenge_verified = text "CHALLENGE_VERIFIED"
login_challenge_name LoginChallenge.login_granted = text "LOGIN_GRANTED"
login_challenge_name LoginChallenge.login_denied = text "LOGIN_DENIED"

login_challenge_flow-Agrees :
    (s : LoginChallengeState)
    → AgreesAt login_challenge_flow login_challenge_name login_challenge_view s
unfolding login_challenge_flow targets text_eq
login_challenge_flow-Agrees LoginChallenge.password_accepted = ground arith
login_challenge_flow-Agrees LoginChallenge.mfa_required = ground arith
login_challenge_flow-Agrees LoginChallenge.challenge_sent = ground arith
login_challenge_flow-Agrees LoginChallenge.challenge_verified = ground arith
login_challenge_flow-Agrees LoginChallenge.login_granted = ground arith
login_challenge_flow-Agrees LoginChallenge.login_denied = ground arith

abbrev pub mfa_setup_name : MfaSetupState → Text
mfa_setup_name MfaSetup.not_configured = text "NOT_CONFIGURED"
mfa_setup_name MfaSetup.setup_started = text "SETUP_STARTED"
mfa_setup_name MfaSetup.secret_issued = text "SECRET_ISSUED"
mfa_setup_name MfaSetup.confirmation_pending = text "CONFIRMATION_PENDING"
mfa_setup_name MfaSetup.enabled = text "ENABLED"
mfa_setup_name MfaSetup.recovery_codes_issued = text "RECOVERY_CODES_ISSUED"
mfa_setup_name MfaSetup.cancelled = text "CANCELLED"

mfa_setup_flow-Agrees :
    (s : MfaSetupState) → AgreesAt mfa_setup_flow mfa_setup_name mfa_setup_view s
unfolding mfa_setup_flow targets text_eq
mfa_setup_flow-Agrees MfaSetup.not_configured = ground arith
mfa_setup_flow-Agrees MfaSetup.setup_started = ground arith
mfa_setup_flow-Agrees MfaSetup.secret_issued = ground arith
mfa_setup_flow-Agrees MfaSetup.confirmation_pending = ground arith
mfa_setup_flow-Agrees MfaSetup.enabled = ground arith
mfa_setup_flow-Agrees MfaSetup.recovery_codes_issued = ground arith
mfa_setup_flow-Agrees MfaSetup.cancelled = ground arith

abbrev pub password_reset_name : PasswordResetState → Text
password_reset_name PasswordReset.requested = text "REQUESTED"
password_reset_name PasswordReset.token_issued = text "TOKEN_ISSUED"
password_reset_name PasswordReset.send_requested = text "SEND_REQUESTED"
password_reset_name PasswordReset.sent = text "SENT"
password_reset_name PasswordReset.token_verified = text "TOKEN_VERIFIED"
password_reset_name PasswordReset.password_changed = text "PASSWORD_CHANGED"
password_reset_name PasswordReset.completed = text "COMPLETED"
password_reset_name PasswordReset.cancelled = text "CANCELLED"

password_reset_flow-Agrees :
    (s : PasswordResetState)
    → AgreesAt password_reset_flow password_reset_name password_reset_view s
unfolding password_reset_flow targets text_eq
password_reset_flow-Agrees PasswordReset.requested = ground arith
password_reset_flow-Agrees PasswordReset.token_issued = ground arith
password_reset_flow-Agrees PasswordReset.send_requested = ground arith
password_reset_flow-Agrees PasswordReset.sent = ground arith
password_reset_flow-Agrees PasswordReset.token_verified = ground arith
password_reset_flow-Agrees PasswordReset.password_changed = ground arith
password_reset_flow-Agrees PasswordReset.completed = ground arith
password_reset_flow-Agrees PasswordReset.cancelled = ground arith

abbrev pub email_verification_name : EmailVerificationState → Text
email_verification_name EmailVerification.token_issued = text "TOKEN_ISSUED"
email_verification_name EmailVerification.send_requested = text "SEND_REQUESTED"
email_verification_name EmailVerification.sent = text "SENT"
email_verification_name EmailVerification.verified = text "VERIFIED"
email_verification_name EmailVerification.cancelled = text "CANCELLED"

email_verification_flow-Agrees :
    (s : EmailVerificationState)
    → AgreesAt email_verification_flow email_verification_name email_verification_view s
unfolding email_verification_flow targets text_eq
email_verification_flow-Agrees EmailVerification.token_issued = ground arith
email_verification_flow-Agrees EmailVerification.send_requested = ground arith
email_verification_flow-Agrees EmailVerification.sent = ground arith
email_verification_flow-Agrees EmailVerification.verified = ground arith
email_verification_flow-Agrees EmailVerification.cancelled = ground arith

abbrev pub registration_name : RegistrationState → Text
registration_name Registration.start = text "START"
registration_name Registration.email_verification_pending = text "EMAIL_VERIFICATION_PENDING"
registration_name Registration.email_verified = text "EMAIL_VERIFIED"
registration_name Registration.mfa_setup_optional = text "MFA_SETUP_OPTIONAL"
registration_name Registration.completed = text "COMPLETED"
registration_name Registration.cancelled = text "CANCELLED"

registration_flow-Agrees :
    (s : RegistrationState) → AgreesAt registration_flow registration_name registration_view s
unfolding registration_flow targets text_eq
registration_flow-Agrees Registration.start = ground arith
registration_flow-Agrees Registration.email_verification_pending = ground arith
registration_flow-Agrees Registration.email_verified = ground arith
registration_flow-Agrees Registration.mfa_setup_optional = ground arith
registration_flow-Agrees Registration.completed = ground arith
registration_flow-Agrees Registration.cancelled = ground arith

abbrev pub mfa_name : MfaState → Text
mfa_name Mfa.challenge_shown = text "CHALLENGE_SHOWN"
mfa_name Mfa.verified = text "VERIFIED"
mfa_name Mfa.terminal_error = text "TERMINAL_ERROR"
mfa_name Mfa.expired = text "EXPIRED"

mfa_flow-Covers : (s : MfaState) → CoversAt mfa_flow mfa_name mfa_view s
unfolding mfa_flow targets text_eq
mfa_flow-Covers Mfa.challenge_shown = ground arith
mfa_flow-Covers Mfa.verified = ground arith
mfa_flow-Covers Mfa.terminal_error = ground arith
mfa_flow-Covers Mfa.expired = ground arith

abbrev pub invite_name : InviteState → Text
invite_name Invite.consent_shown = text "CONSENT_SHOWN"
invite_name Invite.account_switching = text "ACCOUNT_SWITCHING"
invite_name Invite.accepted = text "ACCEPTED"
invite_name Invite.complete = text "COMPLETE"
invite_name Invite.terminal_error = text "TERMINAL_ERROR"
invite_name Invite.expired = text "EXPIRED"

invite_flow-Covers : (s : InviteState) → CoversAt invite_flow invite_name invite_view s
unfolding invite_flow targets text_eq
invite_flow-Covers Invite.consent_shown = ground arith
invite_flow-Covers Invite.account_switching = ground arith
invite_flow-Covers Invite.accepted = ground arith
invite_flow-Covers Invite.complete = ground arith
invite_flow-Covers Invite.terminal_error = ground arith
invite_flow-Covers Invite.expired = ground arith

-- The tables of the login challenge, the set-up of a second factor, the password reset, the verification
-- of an address and the registration have, from every state, exactly the exits of the definitions, but
-- for edges to the state for errors; those of the second factor and the invitation have all exits.
pub flow_tables-Agree :
    ((s : LoginChallengeState)
      → AgreesAt login_challenge_flow login_challenge_name login_challenge_view s)
    × ((s : MfaSetupState) → AgreesAt mfa_setup_flow mfa_setup_name mfa_setup_view s)
    × ((s : PasswordResetState)
        → AgreesAt password_reset_flow password_reset_name password_reset_view s)
    × ((s : EmailVerificationState)
        → AgreesAt email_verification_flow email_verification_name email_verification_view s)
    × ((s : RegistrationState) → AgreesAt registration_flow registration_name registration_view s)
    × ((s : MfaState) → CoversAt mfa_flow mfa_name mfa_view s)
    × ((s : InviteState) → CoversAt invite_flow invite_name invite_view s)
flow_tables-Agree = (
  login_challenge_flow-Agrees, mfa_setup_flow-Agrees, password_reset_flow-Agrees,
  email_verification_flow-Agrees, registration_flow-Agrees, mfa_flow-Covers, invite_flow-Covers,
)
