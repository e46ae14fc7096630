-- ===== src/AuthServer/FlowTables/First.antt =====
-- The tables of sign-in: `flow_tables` of auth-server/src/handlers/viz.rs.
use volta_gateway.Prelude.{List, [], ◌∷◌, text}
use volta_gateway.AuthCore.Descriptor.{Edge}
use volta_gateway.AuthServer.FlowTables.{FlowView, edge}

abbrev pub oidc_view : FlowView
oidc_view = record {
  name = text "oidc";
  states =
      text "INIT"
      ∷ text "REDIRECTED"
      ∷ text "CALLBACK_RECEIVED"
      ∷ text "TOKEN_EXCHANGED"
      ∷ text "USER_RESOLVED"
      ∷ text "COMPLETE"
      ∷ text "COMPLETE_MFA_PENDING"
      ∷ text "TERMINAL_ERROR"
      ∷ [];
  initial = text "INIT";
  terminals = text "COMPLETE" ∷ text "COMPLETE_MFA_PENDING" ∷ text "TERMINAL_ERROR" ∷ [];
  edges =
      edge (text "INIT") (text "REDIRECTED") (text "OidcInitProcessor")
      ∷ edge (text "REDIRECTED") (text "CALLBACK_RECEIVED") (text "OidcCallbackGuard")
      ∷ edge (text "CALLBACK_RECEIVED") (text "TOKEN_EXCHANGED") (text "OidcTokenExchangeProcessor")
      ∷ edge (text "TOKEN_EXCHANGED") (text "USER_RESOLVED") (text "UserResolveProcessor")
      ∷ edge (text "USER_RESOLVED") (text "COMPLETE") (text "branch(no_mfa)")
      ∷ edge (text "USER_RESOLVED") (text "COMPLETE_MFA_PENDING") (text "branch(mfa_required)")
      ∷ edge (text "REDIRECTED") (text "TERMINAL_ERROR") (text "guard_fail")
      ∷ edge (text "CALLBACK_RECEIVED") (text "TERMINAL_ERROR") (text "idp_error")
      ∷ [];
}

abbrev pub oidc_external : List Edge
oidc_external = edge (text "REDIRECTED") (text "CALLBACK_RECEIVED") (text "OidcCallbackGuard") ∷ []

abbrev pub passkey_view : FlowView
passkey_view = record {
  name = text "passkey";
  states =
      text "INIT"
      ∷ text "REG_CHALLENGE"
      ∷ text "ATTESTATION_RECEIVED"
      ∷ text "REGISTERED"
      ∷ text "AUTH_CHALLENGE"
      ∷ text "ASSERTION_RECEIVED"
      ∷ text "USER_RESOLVED"
      ∷ text "COUNTER_CHECKED"
      ∷ text "COMPLETE"
      ∷ text "TERMINAL_ERROR"
      ∷ text "CLONE_REJECTED"
      ∷ [];
  initial = text "INIT";
  terminals =
      text "REGISTERED" ∷ text "COMPLETE" ∷ text "TERMINAL_ERROR" ∷ text "CLONE_REJECTED" ∷ [];
  edges =
      edge (text "INIT") (text "REG_CHALLENGE") (text "register_start")
      ∷ edge (text "REG_CHALLENGE") (text "ATTESTATION_RECEIVED") (text "attestation_ext")
      ∷ edge (text "ATTESTATION_RECEIVED") (text "REGISTERED") (text "verify_and_store")
      ∷ edge (text "REG_CHALLENGE") (text "TERMINAL_ERROR") (text "already_registered")
      ∷ edge (text "ATTESTATION_RECEIVED") (text "TERMINAL_ERROR") (text "attestation_invalid")
      ∷ edge (text "INIT") (text "AUTH_CHALLENGE") (text "discover_start")
      ∷ edge (text "AUTH_CHALLENGE") (text "ASSERTION_RECEIVED") (text "assertion_ext")
      ∷ edge (text "ASSERTION_RECEIVED") (text "USER_RESOLVED") (text "verify_user_handle")
      ∷ edge (text "USER_RESOLVED") (text "COUNTER_CHECKED") (text "sign_counter_check")
      ∷ edge (text "COUNTER_CHECKED") (text "COMPLETE") (text "session_issue")
      ∷ edge (text "COUNTER_CHECKED") (text "CLONE_REJECTED") (text "signcount_regression")
      ∷ edge (text "AUTH_CHALLENGE") (text "TERMINAL_ERROR") (text "challenge_expired")
      ∷ edge (text "ASSERTION_RECEIVED") (text "TERMINAL_ERROR") (text "invalid_signature")
      ∷ [];
}

abbrev pub passkey_external : List Edge
passkey_external =
    edge (text "REG_CHALLENGE") (text "ATTESTATION_RECEIVED") (text "attestation_ext")
    ∷ edge (text "AUTH_CHALLENGE") (text "ASSERTION_RECEIVED") (text "assertion_ext")
    ∷ []

abbrev pub mfa_view : FlowView
mfa_view = record {
  name = text "mfa";
  states = text "CHALLENGE_SHOWN" ∷ text "VERIFIED" ∷ text "TERMINAL_ERROR" ∷ text "EXPIRED" ∷ [];
  initial = text "CHALLENGE_SHOWN";
  terminals = text "VERIFIED" ∷ text "TERMINAL_ERROR" ∷ text "EXPIRED" ∷ [];
  edges =
      edge (text "CHALLENGE_SHOWN") (text "VERIFIED") (text "MfaCodeGuard")
      ∷ edge (text "CHALLENGE_SHOWN") (text "TERMINAL_ERROR") (text "3x_incorrect")
      ∷ edge (text "CHALLENGE_SHOWN") (text "EXPIRED") (text "ttl")
      ∷ [];
}

abbrev pub mfa_external : List Edge
mfa_external = edge (text "CHALLENGE_SHOWN") (text "VERIFIED") (text "MfaCodeGuard") ∷ []

abbrev pub invite_view : FlowView
invite_view = record {
  name = text "invite";
  states =
      text "CONSENT_SHOWN"
      ∷ text "ACCOUNT_SWITCHING"
      ∷ text "ACCEPTED"
      ∷ text "COMPLETE"
      ∷ text "TERMINAL_ERROR"
      ∷ text "EXPIRED"
      ∷ [];
  initial = text "CONSENT_SHOWN";
  terminals = text "COMPLETE" ∷ text "TERMINAL_ERROR" ∷ text "EXPIRED" ∷ [];
  edges =
      edge (text "CONSENT_SHOWN") (text "ACCEPTED") (text "EmailMatchGuard")
      ∷ edge (text "CONSENT_SHOWN") (text "ACCOUNT_SWITCHING") (text "email_mismatch")
      ∷ edge (text "ACCOUNT_SWITCHING") (text "ACCEPTED") (text "ResumeGuard")
      ∷ edge (text "ACCEPTED") (text "COMPLETE") (text "InviteCompleteProcessor")
      ∷ edge (text "CONSENT_SHOWN") (text "TERMINAL_ERROR") (text "invite_expired")
      ∷ edge (text "ACCOUNT_SWITCHING") (text "EXPIRED") (text "resume_timeout")
      ∷ [];
}

abbrev pub invite_external : List Edge
invite_external =
    edge (text "CONSENT_SHOWN") (text "ACCEPTED") (text "EmailMatchGuard")
    ∷ edge (text "ACCOUNT_SWITCHING") (text "ACCEPTED") (text "ResumeGuard")
    ∷ []
