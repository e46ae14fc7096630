-- ===== src/Tests/Flows.antt =====
-- Runs through the flows of sign-in, registration, invitation and password reset.
use volta_gateway.Prelude.{
  ◌≡◌, ◌⊎◌, refl, Bool, true, false, Option, none, some, [], Text, text, text_eq, to_lower,
}
use volta_gateway.Prelude.Dict.{get}
use volta_gateway.AuthCore.Flows.{
  Reach, here, next, auto_step, external_step, rejected_step, branch_step,
}
use volta_gateway.AuthCore.Flows.LoginChallenge
use volta_gateway.AuthCore.Flows.LoginChallenge.{
  LoginChallengeContext, login_challenge_flow, needs_mfa, login_granted_lem,
}
use volta_gateway.AuthCore.Flows.Mfa
use volta_gateway.AuthCore.Flows.Mfa.{MfaContext, MfaCode, mfa_flow, mfa_flow_lem}
use volta_gateway.AuthCore.Flows.Registration
use volta_gateway.AuthCore.Flows.Registration.{
  RegistrationContext, registration_flow, decide_setup, registration_completed_lem,
}
use volta_gateway.AuthCore.Flows.Invite
use volta_gateway.AuthCore.Flows.Invite.{
  InviteContext, InviteResult, invite_flow, is_own, Joins, invite_complete_lem,
}
use volta_gateway.AuthCore.Flows.PasswordReset
use volta_gateway.AuthCore.Flows.PasswordReset.{
  PasswordResetContext, password_reset_flow, MailAsked, TokenAccepted, password_reset_lem,
}
use volta_gateway.AuthCore.Flows.Oidc
use volta_gateway.AuthCore.Flows.Oidc.{
  OidcContext, OidcInput, OidcCallbackData, OidcTokenData, OidcUserData, RiskCheckResult, oidc_flow,
  oidc_flow_lem,
}

abbrev challenge : Option Text → Option Bool → LoginChallengeContext
challenge sent proof = record {
  init = some (record { user_id = text "u1"; mfa_required = true; method = text "totp" });
  sent = sent;
  proof = proof;
}

-- A wrong code, then the right one.
granted :
    Reach login_challenge_flow LoginChallenge.password_accepted
      (challenge none none)
      LoginChallenge.login_granted
      (challenge (some (text "totp")) (some true))
unfolding login_challenge_flow LoginChallenge.decide_mfa LoginChallenge.send_challenge
    LoginChallenge.verify_challenge LoginChallenge.grant_login needs_mfa get text_eq
granted =
    next
      (next
        (next (next (next here (branch_step refl refl)) (auto_step refl refl))
          (rejected_step false refl refl))
        (external_step true refl refl))
      (auto_step refl refl)

login_granted_lem_example :
    (needs_mfa (challenge (some (text "totp")) (some true)) ≡ false)
    ⊎ ((challenge (some (text "totp")) (some true)).proof ≡ some true)
login_granted_lem_example =
    login_granted_lem (challenge none none) (challenge (some (text "totp")) (some true)) granted

abbrev mfa : Option MfaCode → MfaContext
mfa submitted = record { session_id = text "s1"; method = text "totp"; submitted = submitted }

abbrev good_code : MfaCode
good_code = record { code = text "123456"; valid = true }

verified : Reach mfa_flow Mfa.challenge_shown (mfa none) Mfa.verified (mfa (some good_code))
unfolding mfa_flow Mfa.check_mfa_code
verified = next here (external_step good_code refl refl)

abbrev registering : Option Text → Option Text → Option Text → Option Bool → RegistrationContext
registering token email choice setup = record {
  init = some (record { email = text "a@b"; correlation_id = text "c1" });
  token_id = token;
  email = email;
  choice = choice;
  setup = setup;
}

-- No choice was made, which skips the second factor.
abbrev registered : RegistrationContext
registered = registering (some (text "pending:c1")) (some (text "a@b")) none none

registration :
    Reach registration_flow Registration.start
      (registering none none none none)
      Registration.completed
      registered
unfolding registration_flow Registration.issue_verification Registration.inject_registration
    decide_setup get text_eq
registration =
    next
      (next (next here (auto_step refl refl))
        (external_step (Registration.email_verified_data (text "a@b")) refl refl))
      (branch_step refl refl)

abbrev invited : Option Bool → Option InviteResult → InviteContext
invited acceptance result = record {
  invite = some (record {
    invite_code = text "code";
    invite_email = some (text "other@b");
    current_user_email = text "a@b";
    tenant_id = text "t1";
  });
  acceptance = acceptance;
  result = result;
}

abbrev member : InviteContext
member =
    invited (some true)
      (some (record { user_id = []; tenant_id = text "t1"; role = text "MEMBER" }))

joined : Reach invite_flow Invite.consent_shown (invited none none) Invite.complete member
unfolding invite_flow Invite.decide_account Invite.complete_invite is_own get text_eq to_lower
joined =
    next (next (next here (branch_step refl refl)) (external_step true refl refl))
      (auto_step refl refl)

invite_complete_lem_example :
    ((is_own member ≡ true) ⊎ (member.acceptance ≡ some true)) × Joins member
invite_complete_lem_example = invite_complete_lem (invited none none) member joined

abbrev resetting :
    Option Text → Option Text → Option Bool → Option Bool → Option Bool → PasswordResetContext
resetting token send_to outcome proof changed = record {
  init = some (record { email = text "a@b"; correlation_id = text "c1" });
  token_id = token;
  send_to = send_to;
  outcome = outcome;
  proof = proof;
  changed = changed;
}

abbrev reset : PasswordResetContext
reset = resetting (some (text "pending:c1")) (some (text "a@b")) (some true) (some true) (some true)

reset_done :
    Reach password_reset_flow PasswordReset.requested
      (resetting none none none none none)
      PasswordReset.completed
      reset
unfolding password_reset_flow PasswordReset.issue_reset_token PasswordReset.request_reset_send
    PasswordReset.complete_reset PasswordReset.inject_password_reset
reset_done =
    next
      (next
        (next
          (next (next (next here (auto_step refl refl)) (auto_step refl refl))
            (external_step (PasswordReset.send_outcome true) refl refl))
          (external_step (PasswordReset.token_proof true) refl refl))
        (external_step (PasswordReset.password_change true) refl refl))
      (auto_step refl refl)

abbrev signing_in :
    Option OidcCallbackData
    → Option OidcTokenData
    → Option OidcUserData
    → Option RiskCheckResult
    → OidcContext
signing_in callback token user risk = record {
  init = some (record {
    provider = text "google";
    redirect_uri = text "https://a/cb";
    state = text "st";
    nonce = text "n";
    app_id = none;
  });
  callback = callback;
  token = token;
  user = user;
  risk = risk;
}

abbrev answer : OidcInput
answer = record {
  callback = some (record { code = text "c"; state = text "st" });
  token = none;
  user = some (record {
    user_id = text "u1";
    email = text "a@b";
    display_name = [];
    tenant_id = text "t1";
    roles = [];
    is_new_user = false;
  });
}

abbrev signed_in : OidcContext
signed_in =
    signing_in answer.callback
      (some (record { access_token = text "at-c"; id_token = none; refresh_token = none }))
      answer.user (some (record { risk_level = text "low"; mfa_required = false; blocked = false }))

sign_in : Reach oidc_flow Oidc.init (signing_in none none none none) Oidc.complete signed_in
unfolding oidc_flow Oidc.check_init Oidc.exchange_token Oidc.resolve_user Oidc.check_risk
    Oidc.decide_risk get text_eq
sign_in =
    next
      (next
        (next
          (next (next (next here (auto_step refl refl)) (external_step answer refl refl))
            (auto_step refl refl))
          (auto_step refl refl))
        (auto_step refl refl))
      (branch_step refl refl)

oidc_flow_lem_example : Oidc.Progress Oidc.complete signed_in
oidc_flow_lem_example =
    oidc_flow_lem (signing_in none none none none) signed_in Oidc.complete sign_in
