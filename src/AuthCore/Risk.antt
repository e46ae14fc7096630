-- ===== src/AuthCore/Risk.antt =====
-- The risk score of a login: auth-core/src/risk.rs.
pub mod Laws
use volta_gateway.Prelude.{ℕ, ◌+◌, min, Bool, leb, if◌then◌else◌}

pub record RiskSignals : Type 0 where
  pub new_device : Bool
  pub ip_changed : Bool
  pub asn_or_geo_changed : Bool
  pub impossible_travel : Bool
  pub off_hours : Bool
  pub ua_changed : Bool

pub record RiskThresholds : Type 0 where
  pub action : ℕ
  pub block : ℕ

abbrev pub default_thresholds : RiskThresholds
default_thresholds = record { action = 4; block = 5 }

pub data RiskDecision : Type 0 where
  allow step_up block : RiskDecision

abbrev pub max_level : ℕ
max_level = 6

abbrev points : Bool → ℕ → ℕ
points signal n = if signal then n else 0

-- The sum stays below 256 before `extra`, which is added with saturation.
unfoldable pub score : RiskSignals → (extra : ℕ) → ℕ
score s extra =
    let level =
      1
      + points s.new_device 2
      + points s.impossible_travel 3
      + points s.asn_or_geo_changed 1
      + points s.ip_changed 1
      + points s.ua_changed 1
      + points s.off_hours 1 in
    min (min (level + extra) 255) max_level

unfoldable pub decide : ℕ → RiskThresholds → RiskDecision
decide level t =
    if leb t.block level
    then RiskDecision.block
    else if leb t.action level
    then RiskDecision.step_up
    else RiskDecision.allow

unfoldable pub evaluate : RiskSignals → RiskThresholds → ℕ → ℕ × RiskDecision
evaluate signals thresholds extra =
    let level = score signals extra in (level, decide level thresholds)
