-- ===== src/AuthCore/Flows/LoginChallenge.antt =====
-- The login challenge: auth-core/src/flow/login_challenge.rs.
use volta_gateway.Prelude.{
  ◌≡◌, ◌⊎◌, inl, Bool, true, false, Option, some, [], ◌∷◌, arith, if◌then◌else◌, unwrap_or,
  map_option, Text, text, text_eq, text_is_eq,
}
use volta_gateway.Prelude.Dict.{get}
use volta_gateway.AuthCore.Flows.{
  Exit, auto, external, branch, stop, Definition, Reach, Reach-Inv, Keeps,
}

pub data LoginChallengeState : Type 0 where
  password_accepted mfa_required challenge_sent challenge_verified login_granted login_denied :
      LoginChallengeState

pub record LoginChallengeInit : Type 0 where
  pub user_id : Text
  pub mfa_required : Bool
  pub method : Text

-- The context: `LoginChallengeInit`, `ChallengeSentData` (its method) and `ChallengeProof` (its flag).
pub record LoginChallengeContext : Type 0 where
  pub init : Option LoginChallengeInit
  pub sent : Option Text
  pub proof : Option Bool

unfoldable pub needs_mfa : LoginChallengeContext → Bool
needs_mfa c = unwrap_or false (map_option (λ i. i.mfa_required) c.init)

-- `MfaRequiredBranch::decide`.
unfoldable pub decide_mfa : LoginChallengeContext → Text
decide_mfa c = if needs_mfa c then text "mfa" else text "grant"

-- `SendChallengeProcessor::process`.
unfoldable pub send_challenge : LoginChallengeContext → Option LoginChallengeContext
send_challenge c = map_option (λ i. record c { sent = some i.method }) c.init

-- `VerifyChallengeGuard::validate`.
unfoldable pub verify_challenge : LoginChallengeContext → Bool
verify_challenge c = unwrap_or false c.proof

-- `GrantProcessor::process`.
unfoldable pub grant_login : LoginChallengeContext → Option LoginChallengeContext
grant_login c = map_option (λ _. c) c.proof

unfoldable pub login_challenge_exit :
    LoginChallengeState → Exit LoginChallengeState LoginChallengeContext
login_challenge_exit password_accepted =
    branch decide_mfa ((text "mfa", mfa_required) ∷ (text "grant", login_granted) ∷ [])
login_challenge_exit mfa_required = auto send_challenge challenge_sent
login_challenge_exit challenge_sent = external verify_challenge challenge_verified
login_challenge_exit challenge_verified = auto grant_login login_granted
login_challenge_exit login_granted = stop
login_challenge_exit login_denied = stop

abbrev is_login_terminal : LoginChallengeState → Bool
is_login_terminal login_granted = true
is_login_terminal login_denied = true
is_login_terminal _ = false

-- `build_login_challenge_flow`.
unfoldable pub login_challenge_flow : Definition LoginChallengeState LoginChallengeContext Bool
unfolding login_challenge_exit
login_challenge_flow = record {
  from = login_challenge_exit;
  inject = λ proof c. record c { proof = some proof };
  is_terminal = is_login_terminal;
  on_any_error = login_denied;
}

-- What is known of the context in a state.
abbrev Known : LoginChallengeState → LoginChallengeContext → Type 0
Known challenge_verified c = c.proof ≡ some true
Known login_granted c = (needs_mfa c ≡ false) ⊎ (c.proof ≡ some true)
Known _ c = Unit

keeps :
    (c₀ : LoginChallengeContext) (s : LoginChallengeState)
    → Keeps login_challenge_flow password_accepted c₀ Known s (login_challenge_flow.from s)
unfolding login_challenge_flow decide_mfa send_challenge verify_challenge grant_login get text_eq
keeps c₀ password_accepted = λ c i. (λ e. tt, (λ e. inl (ground arith), tt))
keeps c₀ mfa_required = λ c c' e i. tt
keeps c₀ challenge_sent = λ p c r i. (λ e. ground arith, λ e. tt)
keeps c₀ challenge_verified = λ c c' e i. ground arith
keeps c₀ login_granted = tt
keeps c₀ login_denied = tt

-- However a login challenge goes on, it ends in a granted login only if no second factor was
-- required or a verified proof was submitted.
pub login_granted_lem :
    (c c' : LoginChallengeContext)
    → Reach login_challenge_flow password_accepted c login_granted c'
    → (needs_mfa c' ≡ false) ⊎ (c'.proof ≡ some true)
unfolding login_challenge_flow
login_granted_lem c c' r =
    Reach-Inv login_challenge_flow password_accepted c Known (keeps c) (λ s c i. tt) tt r
