-- ===== src/AuthCore/Flows/DeviceGrant.antt =====
-- The device grant: auth-core/src/flow/device_grant.rs.
use volta_gateway.Prelude.{
  ◌≡◌, Bool, true, false, Option, some, arith, unwrap_or, map_option, Text, text_is_eq,
}
use volta_gateway.AuthCore.Flows.{Exit, auto, external, stop, Definition, Reach, Reach-Inv, Keeps}

pub data DeviceGrantState : Type 0 where
  pending approved completed rejected : DeviceGrantState

-- `DeviceGrantInit` and the flag of `DeviceDecisionProof`.
pub record DeviceGrantContext : Type 0 where
  pub client_id : Text
  pub user_code : Text
  pub scope : Option Text
  pub decision : Option Bool

-- `IssueTokenProcessor::process`.
unfoldable pub issue_token : DeviceGrantContext → Option DeviceGrantContext
issue_token c = map_option (λ _. c) c.decision

unfoldable pub device_grant_exit : DeviceGrantState → Exit DeviceGrantState DeviceGrantContext
device_grant_exit pending = external (λ c. unwrap_or false c.decision) approved
device_grant_exit approved = auto issue_token completed
device_grant_exit completed = stop
device_grant_exit rejected = stop

abbrev is_device_grant_terminal : DeviceGrantState → Bool
is_device_grant_terminal completed = true
is_device_grant_terminal rejected = true
is_device_grant_terminal _ = false

-- `build_device_grant_flow`.
unfoldable pub device_grant_flow : Definition DeviceGrantState DeviceGrantContext Bool
unfolding device_grant_exit
device_grant_flow = record {
  from = device_grant_exit;
  inject = λ b c. record c { decision = some b };
  is_terminal = is_device_grant_terminal;
  on_any_error = rejected;
}

abbrev Known : DeviceGrantState → DeviceGrantContext → Type 0
Known approved c = c.decision ≡ some true
Known completed c = c.decision ≡ some true
Known _ c = Unit

keeps :
    (c₀ : DeviceGrantContext) (s : DeviceGrantState)
    → Keeps device_grant_flow pending c₀ Known s (device_grant_flow.from s)
unfolding device_grant_flow issue_token
keeps c₀ pending = λ d c r i. (λ e. ground arith, λ e. tt)
keeps c₀ approved = λ c c' e i. ground arith
keeps c₀ completed = tt
keeps c₀ rejected = tt

-- A device grant is completed only if the user approved it.
pub device_grant_completed_lem :
    (c c' : DeviceGrantContext)
    → Reach device_grant_flow pending c completed c'
    → c'.decision ≡ some true
unfolding device_grant_flow
device_grant_completed_lem c c' r =
    Reach-Inv device_grant_flow pending c Known (keeps c) (λ s a i. tt) tt r
