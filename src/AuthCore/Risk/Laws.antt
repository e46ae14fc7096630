-- ===== src/AuthCore/Risk/Laws.antt =====
-- The score grows with the signals, and so does the decision.
use volta_gateway.Prelude.{ℕ, ◌≤◌, ◌≡◌, Bool, true, arith, if◌then◌else◌}
use volta_gateway.AuthCore.Risk.{
  RiskSignals, RiskThresholds, RiskDecision, max_level, score, decide, evaluate,
}

-- How severe a decision is.
abbrev pub severity : RiskDecision → ℕ
severity RiskDecision.allow = 0
severity RiskDecision.step_up = 1
severity RiskDecision.block = 2

abbrev pub Implies : Bool → Bool → Type 0
Implies a b = a ≡ true → b ≡ true

-- Each signal of the first login is one of the second.
pub record Includes (s s' : RiskSignals) : Type 0 where
  pub new_device : Implies s.new_device s'.new_device
  pub ip_changed : Implies s.ip_changed s'.ip_changed
  pub asn_or_geo_changed : Implies s.asn_or_geo_changed s'.asn_or_geo_changed
  pub impossible_travel : Implies s.impossible_travel s'.impossible_travel
  pub off_hours : Implies s.off_hours s'.off_hours
  pub ua_changed : Implies s.ua_changed s'.ua_changed

abbrev points : Bool → ℕ → ℕ
points signal n = if signal then n else 0

points_mono : (a b : Bool) (n : ℕ) → Implies a b → points a n ≤ points b n
points_mono a b n h = ground arith

score_mono :
    (s s' : RiskSignals) (extra extra' : ℕ)
    → Includes s s'
    → extra ≤ extra'
    → score s extra ≤ score s' extra'
unfolding score
score_mono s s' extra extra' h more =
    let a = points_mono s.new_device s'.new_device 2 h.new_device in
    let b = points_mono s.impossible_travel s'.impossible_travel 3 h.impossible_travel in
    let c = points_mono s.asn_or_geo_changed s'.asn_or_geo_changed 1 h.asn_or_geo_changed in
    let d = points_mono s.ip_changed s'.ip_changed 1 h.ip_changed in
    let e = points_mono s.ua_changed s'.ua_changed 1 h.ua_changed in
    let f = points_mono s.off_hours s'.off_hours 1 h.off_hours in omega arith

decide_mono :
    (level level' : ℕ) (t : RiskThresholds)
    → level ≤ level'
    → severity (decide level t) ≤ severity (decide level' t)
unfolding decide
decide_mono level level' t h = ground arith

-- The level lies between 1 and 6, and a login with more signals and more points from outside is
-- never judged more mildly, under any thresholds.
pub evaluate_mono :
    (s s' : RiskSignals) (t : RiskThresholds) (extra extra' : ℕ)
    → Includes s s'
    → extra ≤ extra'
    → (1 ≤ (evaluate s t extra).0)
      × ((evaluate s t extra).0 ≤ max_level)
      × ((evaluate s t extra).0 ≤ (evaluate s' t extra').0)
      × (severity (evaluate s t extra).1 ≤ severity (evaluate s' t extra').1)
unfolding evaluate
evaluate_mono s s' t extra extra' h more =
    let grows = score_mono s s' extra extra' h more in
    (unfold score in omega arith, unfold score in omega arith, grows, decide_mono _ _ t grows)
