-- ===== src/Tests/Choices.antt =====
-- The choice of a backend, the risk of a login and the order of a list on concrete inputs.
use volta_gateway.Prelude.{
  ℕ, ◌*◌, ◌/◌, ◌≡◌, refl, true, false, some, List, [], ◌∷◌, arith, In, Text, text, text_eq,
}
use volta_gateway.Prelude.Dict.{get}
use volta_gateway.Gateway.Selector.{BackendSelector, is_healthy, select}
use volta_gateway.Gateway.Selector.Laws.{select-healthy}
use volta_gateway.AuthCore.Risk.{RiskSignals}

-- The product of exact fractions.
abbrev scale : ℕ → ℕ → ℕ
scale sample total = sample * total / 10000

abbrev backends : List Text
backends = text "a" ∷ text "b" ∷ []

-- The first of the two backends is down.
abbrev selector : BackendSelector
selector = record { counters = []; health = (text "a", false) ∷ [] }

select-healthy_example :
    (c : Text) × ((select scale 40 (text "h") backends [] selector).1 ≡ some c)
    × In c backends
    × (is_healthy selector.health c ≡ true)
select-healthy_example =
    select-healthy scale 40 (text "h") backends [] selector (text "b") (In.tail In.head)
      (unfold get text_eq in refl) (unfold get in omega arith)

abbrev calm : RiskSignals
calm = record {
  new_device = false;
  ip_changed = true;
  asn_or_geo_changed = false;
  impossible_travel = false;
  off_hours = false;
  ua_changed = false;
}

abbrev odd : RiskSignals
odd = record calm { new_device = true; impossible_travel = true }
