-- ===== src/AuthServer/FlowTables/Second.antt =====
-- The tables of accounts and devices: `flow_tables` of auth-server/src/handlers/viz.rs.
use volta_gateway.Prelude.{List, [], ◌∷◌, text}
use volta_gateway.AuthCore.Descriptor.{Edge}
use volta_gateway.AuthServer.FlowTables.{FlowView, edge}

abbrev pub registration_view : FlowView
registration_view = record {
  name = text "registration";
  states =
      text "START"
      ∷ text "EMAIL_VERIFICATION_PENDING"
      ∷ text "EMAIL_VERIFIED"
      ∷ text "MFA_SETUP_OPTIONAL"
      ∷ text "COMPLETED"
      ∷ text "CANCELLED"
      ∷ [];
  initial = text "START";
  terminals = text "COMPLETED" ∷ text "CANCELLED" ∷ [];
  edges =
      edge (text "START") (text "EMAIL_VERIFICATION_PENDING") (text "RegIssueVerification")
      ∷ edge (text "EMAIL_VERIFICATION_PENDING") (text "EMAIL_VERIFIED")
          (text "RegVerifyEmailGuard")
      ∷ edge (text "EMAIL_VERIFIED") (text "MFA_SETUP_OPTIONAL") (text "branch(setup)")
      ∷ edge (text "EMAIL_VERIFIED") (text "COMPLETED") (text "branch(skip)")
      ∷ edge (text "MFA_SETUP_OPTIONAL") (text "COMPLETED") (text "RegMfaDoneGuard")
      ∷ edge (text "EMAIL_VERIFICATION_PENDING") (text "CANCELLED") (text "expire_or_cancel")
      ∷ [];
}

abbrev pub registration_external : List Edge
registration_external =
    edge (text "EMAIL_VERIFICATION_PENDING") (text "EMAIL_VERIFIED") (text "RegVerifyEmailGuard")
    ∷ edge (text "MFA_SETUP_OPTIONAL") (text "COMPLETED") (text "RegMfaDoneGuard")
    ∷ []

abbrev pub email_verification_view : FlowView
email_verification_view = record {
  name = text "email_verification";
  states =
      text "TOKEN_ISSUED"
      ∷ text "SEND_REQUESTED"
      ∷ text "SENT"
      ∷ text "VERIFIED"
      ∷ text "CANCELLED"
      ∷ [];
  initial = text "TOKEN_ISSUED";
  terminals = text "VERIFIED" ∷ text "CANCELLED" ∷ [];
  edges =
      edge (text "TOKEN_ISSUED") (text "SEND_REQUESTED") (text "EvRequestSend")
      ∷ edge (text "SEND_REQUESTED") (text "SENT") (text "EvMarkSentGuard")
      ∷ edge (text "SENT") (text "VERIFIED") (text "EvVerifyTokenGuard")
      ∷ edge (text "SEND_REQUESTED") (text "CANCELLED") (text "send_failed")
      ∷ [];
}

abbrev pub email_verification_external : List Edge
email_verification_external =
    edge (text "SEND_REQUESTED") (text "SENT") (text "EvMarkSentGuard")
    ∷ edge (text "SENT") (text "VERIFIED") (text "EvVerifyTokenGuard")
    ∷ []

abbrev pub password_reset_view : FlowView
password_reset_view = record {
  name = text "password_reset";
  states =
      text "REQUESTED"
      ∷ text "TOKEN_ISSUED"
      ∷ text "SEND_REQUESTED"
      ∷ text "SENT"
      ∷ text "TOKEN_VERIFIED"
      ∷ text "PASSWORD_CHANGED"
      ∷ text "COMPLETED"
      ∷ text "CANCELLED"
      ∷ [];
  initial = text "REQUESTED";
  terminals = text "COMPLETED" ∷ text "CANCELLED" ∷ [];
  edges =
      edge (text "REQUESTED") (text "TOKEN_ISSUED") (text "PrIssueResetToken")
      ∷ edge (text "TOKEN_ISSUED") (text "SEND_REQUESTED") (text "PrRequestSend")
      ∷ edge (text "SEND_REQUESTED") (text "SENT") (text "PrMarkSentGuard")
      ∷ edge (text "SENT") (text "TOKEN_VERIFIED") (text "PrVerifyResetTokenGuard")
      ∷ edge (text "TOKEN_VERIFIED") (text "PASSWORD_CHANGED") (text "PrChangePasswordGuard")
      ∷ edge (text "PASSWORD_CHANGED") (text "COMPLETED") (text "PrComplete")
      ∷ edge (text "SEND_REQUESTED") (text "CANCELLED") (text "expire")
      ∷ [];
}

abbrev pub password_reset_external : List Edge
password_reset_external =
    edge (text "SEND_REQUESTED") (text "SENT") (text "PrMarkSentGuard")
    ∷ edge (text "SENT") (text "TOKEN_VERIFIED") (text "PrVerifyResetTokenGuard")
    ∷ edge (text "TOKEN_VERIFIED") (text "PASSWORD_CHANGED") (text "PrChangePasswordGuard")
    ∷ []

abbrev pub mfa_setup_view : FlowView
mfa_setup_view = record {
  name = text "mfa_setup";
  states =
      text "NOT_CONFIGURED"
      ∷ text "SETUP_STARTED"
      ∷ text "SECRET_ISSUED"
      ∷ text "CONFIRMATION_PENDING"
      ∷ text "ENABLED"
      ∷ text "RECOVERY_CODES_ISSUED"
      ∷ text "CANCELLED"
      ∷ [];
  initial = text "NOT_CONFIGURED";
  terminals = text "RECOVERY_CODES_ISSUED" ∷ text "CANCELLED" ∷ [];
  edges =
      edge (text "NOT_CONFIGURED") (text "SETUP_STARTED") (text "MfaStartSetupGuard")
      ∷ edge (text "SETUP_STARTED") (text "SECRET_ISSUED") (text "MfaIssueSecret")
      ∷ edge (text "SECRET_ISSUED") (text "CONFIRMATION_PENDING") (text "MfaPresentSecret")
      ∷ edge (text "CONFIRMATION_PENDING") (text "ENABLED") (text "MfaConfirmCodeGuard")
      ∷ edge (text "ENABLED") (text "RECOVERY_CODES_ISSUED") (text "MfaIssueRecoveryCodes")
      ∷ edge (text "CONFIRMATION_PENDING") (text "CANCELLED") (text "cancel")
      ∷ [];
}

abbrev pub mfa_setup_external : List Edge
mfa_setup_external =
    edge (text "NOT_CONFIGURED") (text "SETUP_STARTED") (text "MfaStartSetupGuard")
    ∷ edge (text "CONFIRMATION_PENDING") (text "ENABLED") (text "MfaConfirmCodeGuard")
    ∷ []

abbrev pub login_challenge_view : FlowView
login_challenge_view = record {
  name = text "login_challenge";
  states =
      text "PASSWORD_ACCEPTED"
      ∷ text "MFA_REQUIRED"
      ∷ text "CHALLENGE_SENT"
      ∷ text "CHALLENGE_VERIFIED"
      ∷ text "LOGIN_GRANTED"
      ∷ text "LOGIN_DENIED"
      ∷ [];
  initial = text "PASSWORD_ACCEPTED";
  terminals = text "LOGIN_GRANTED" ∷ text "LOGIN_DENIED" ∷ [];
  edges =
      edge (text "PASSWORD_ACCEPTED") (text "MFA_REQUIRED") (text "branch(mfa)")
      ∷ edge (text "PASSWORD_ACCEPTED") (text "LOGIN_GRANTED") (text "branch(grant)")
      ∷ edge (text "MFA_REQUIRED") (text "CHALLENGE_SENT") (text "LcSendChallenge")
      ∷ edge (text "CHALLENGE_SENT") (text "CHALLENGE_VERIFIED") (text "LcVerifyChallengeGuard")
      ∷ edge (text "CHALLENGE_VERIFIED") (text "LOGIN_GRANTED") (text "LcGrant")
      ∷ edge (text "CHALLENGE_SENT") (text "LOGIN_DENIED") (text "deny")
      ∷ [];
}

abbrev pub login_challenge_external : List Edge
login_challenge_external =
    edge (text "CHALLENGE_SENT") (text "CHALLENGE_VERIFIED") (text "LcVerifyChallengeGuard") ∷ []

abbrev pub device_grant_view : FlowView
device_grant_view = record {
  name = text "device_grant";
  states =
      text "PENDING" ∷ text "APPROVED" ∷ text "COMPLETED" ∷ text "DENIED" ∷ text "EXPIRED" ∷ [];
  initial = text "PENDING";
  terminals = text "COMPLETED" ∷ text "DENIED" ∷ text "EXPIRED" ∷ [];
  edges =
      edge (text "PENDING") (text "APPROVED") (text "device_approve")
      ∷ edge (text "PENDING") (text "DENIED") (text "device_deny")
      ∷ edge (text "PENDING") (text "EXPIRED") (text "ttl")
      ∷ edge (text "APPROVED") (text "COMPLETED") (text "token_poll")
      ∷ [];
}

abbrev pub device_grant_external : List Edge
device_grant_external = edge (text "PENDING") (text "APPROVED") (text "device_approve") ∷ []
