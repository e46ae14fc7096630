-- ===== src/Gateway/Selector.antt =====
-- The choice of a backend: `BackendSelector` and `rand_sample` of gateway/src/proxy.rs.
-- A sample is a number of ten-thousandths. The product of a sample and a total as `f64`, cut off to
-- a `u32`, is a parameter.
pub mod Laws
use volta_gateway.Prelude.{
  ℕ, zero, suc, ◌+◌, ◌*◌, ◌%◌, Bool, true, false, not, ◌&&◌, ◌||◌, Option, none, some, List, [],
  ◌∷◌, ltb, leb, ◌==◌, if◌then◌else◌, unwrap_or, length, get_elem?, u32, u64, Text, text_is_eq,
}
use volta_gateway.Prelude.Dict.{Dict, get, insert}

pub record BackendSelector : Type 0 where
  pub counters : Dict Text ℕ
  pub health : Dict Text Bool

-- `rand_sample` for a value of its counter, before the division by 10000.
unfoldable pub rand_sample : ℕ → ℕ
rand_sample c = u64 (u64 (c * 6364136223846793005) + 1442695040888963407) % 10000

-- A backend of unknown health counts as alive.
abbrev pub is_healthy : Dict Text Bool → Text → Bool
is_healthy health backend = unwrap_or true (get backend health)

-- The sum of the weights of the healthy backends.
unfoldable pub total_weight : Dict Text Bool → List Text → List ℕ → ℕ
total_weight health [] ws = 0
total_weight health (b ∷ bs) [] = 0
total_weight health (b ∷ bs) (w ∷ ws) =
    let rest = total_weight health bs ws in if is_healthy health b then u32 (w + rest) else rest

-- The loop over the weights, with the sum so far.
unfoldable pub pick_weighted : Dict Text Bool → (r acc : ℕ) → List Text → List ℕ → Option Text
pick_weighted health r acc [] ws = none
pick_weighted health r acc (b ∷ bs) [] = none
pick_weighted health r acc (b ∷ bs) (w ∷ ws) =
    let skipped = pick_weighted health r acc bs ws in
    let later = pick_weighted health r (u32 (acc + w)) bs ws in
    if not (is_healthy health b) then skipped else if ltb r (u32 (acc + w)) then some b else later

-- The loop of the round robin: the counter after it, and the choice.
unfoldable pub round_robin : Dict Text Bool → List Text → (rounds counter : ℕ) → ℕ × Option Text
round_robin health backends zero counter = (counter, get_elem? backends (counter % length backends))
round_robin health backends (suc rounds) counter =
    let later = round_robin health backends rounds (u64 (counter + 1)) in
    elim (get_elem? backends (counter % length backends)) [
      | none ↦ later
      | some backend ↦
          if is_healthy health backend then (u64 (counter + 1), some backend) else later
    ]

module _ (scale : (sample total : ℕ) → ℕ) where
  -- The branch on the weights.
  unfoldable pub select_weighted : Dict Text Bool → (sample : ℕ) → List Text → List ℕ → Option Text
  select_weighted health sample backends weights =
      let total = total_weight health backends weights in
      if not (length weights == 0) && length weights == length backends && ltb 0 total
      then pick_weighted health (scale sample total) 0 backends weights
      else none

  -- `none` stands for the panic on an empty list of backends.
  unfoldable pub select :
      (sample : ℕ) → Text → List Text → List ℕ → BackendSelector → BackendSelector × Option Text
  select sample host backends weights s =
      if leb (length backends) 1
      then (s, get_elem? backends 0)
      else elim (select_weighted s.health sample backends weights) [
        | some backend ↦ (s, some backend)
        | none ↦
            let (counter, chosen) =
              round_robin s.health backends (length backends) (unwrap_or 0 (get host s.counters)) in
            (record s { counters = insert host counter s.counters }, chosen)
      ]

unfoldable pub set_health : Text → Bool → BackendSelector → BackendSelector
set_health backend alive s = record s { health = insert backend alive s.health }
