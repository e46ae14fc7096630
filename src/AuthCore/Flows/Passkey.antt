-- ===== src/AuthCore/Flows/Passkey.antt =====
-- Signing in with a passkey: auth-core/src/flow/passkey.rs.
use volta_gateway.Prelude.{
  ◌≡◌, refl, Bool, true, false, not, Option, none, some, [], arith, if◌then◌else◌, unwrap_or,
  map_option, is_some, and_then, Text, text, text_is_eq,
}
use volta_gateway.AuthCore.Flows.{Exit, auto, external, stop, Definition, Reach, Reach-Inv, Keeps}

pub data PasskeyState : Type 0 where
  init challenge_issued assertion_received user_resolved complete terminal_error : PasskeyState

pub record PasskeyChallenge : Type 0 where
  pub challenge : Text
  pub rp_id : Text

pub record PasskeyAssertion : Type 0 where
  pub credential_id : Text
  pub authenticator_data : Text
  pub client_data_json : Text
  pub signature : Text

pub record PasskeyUser : Type 0 where
  pub user_id : Text
  pub credential_verified : Bool

-- `PasskeyInitData` (its session), and what the flow adds.
pub record PasskeyContext : Type 0 where
  pub init : Option Text
  pub challenge : Option PasskeyChallenge
  pub assertion : Option PasskeyAssertion
  pub user : Option PasskeyUser

-- `ChallengeProcessor::process`.
unfoldable pub issue_challenge : PasskeyContext → Option PasskeyContext
issue_challenge c =
    map_option
      (λ _. record c {
        challenge =
            some (record { challenge = text "challenge-placeholder"; rp_id = text "unlaxer.org" });
      })
      c.init

-- `VerifyProcessor::process`.
unfoldable pub verify_assertion : PasskeyContext → Option PasskeyContext
verify_assertion c =
    map_option (λ _. record c { user = some (record { user_id = []; credential_verified = true }) })
      c.assertion

-- `PasskeyCompleteProcessor::process`.
unfoldable pub complete_passkey : PasskeyContext → Option PasskeyContext
complete_passkey c = and_then c.user (λ u. if not u.credential_verified then none else some c)

unfoldable pub passkey_exit : PasskeyState → Exit PasskeyState PasskeyContext
passkey_exit init = auto issue_challenge challenge_issued
passkey_exit challenge_issued = external (λ c. is_some c.assertion) assertion_received
passkey_exit assertion_received = auto verify_assertion user_resolved
passkey_exit user_resolved = auto complete_passkey complete
passkey_exit complete = stop
passkey_exit terminal_error = stop

abbrev is_passkey_terminal : PasskeyState → Bool
is_passkey_terminal complete = true
is_passkey_terminal terminal_error = true
is_passkey_terminal _ = false

-- `build_passkey_flow`.
unfoldable pub passkey_flow : Definition PasskeyState PasskeyContext PasskeyAssertion
unfolding passkey_exit
passkey_flow = record {
  from = passkey_exit;
  inject = λ a c. record c { assertion = some a };
  is_terminal = is_passkey_terminal;
  on_any_error = terminal_error;
}

abbrev IsChallenged : PasskeyContext → Type 0
IsChallenged c = is_some c.challenge ≡ true

abbrev IsAsserted : PasskeyContext → Type 0
IsAsserted c = IsChallenged c × (is_some c.assertion ≡ true)

abbrev Known : PasskeyState → PasskeyContext → Type 0
Known challenge_issued c = IsChallenged c
Known assertion_received c = IsAsserted c
Known user_resolved c = IsAsserted c
Known complete c =
    IsAsserted c × (unwrap_or false (map_option (λ u. u.credential_verified) c.user) ≡ true)
Known _ c = Unit

keeps :
    (c₀ : PasskeyContext) (s : PasskeyState)
    → Keeps passkey_flow init c₀ Known s (passkey_flow.from s)
unfolding passkey_flow issue_challenge verify_assertion complete_passkey
keeps c₀ init = λ c c' e i. ground arith
keeps c₀ challenge_issued = λ d c r i. (λ e. (i, refl), λ e. i)
keeps c₀ assertion_received = λ c c' e i. (ground arith, ground arith)
keeps c₀ user_resolved = λ c c' e i. ((ground arith, ground arith), ground arith)
keeps c₀ complete = tt
keeps c₀ terminal_error = tt

-- A passkey flow is complete only after a challenge was issued and an assertion came in, and with a
-- user whose credential was found to be verified.
pub passkey_complete_lem :
    (c c' : PasskeyContext)
    → Reach passkey_flow init c complete c'
    → ((is_some c'.challenge ≡ true) × (is_some c'.assertion ≡ true))
      × (unwrap_or false (map_option (λ u. u.credential_verified) c'.user) ≡ true)
unfolding passkey_flow
passkey_complete_lem c c' r = Reach-Inv passkey_flow init c Known (keeps c) (λ s a i. tt) tt r
