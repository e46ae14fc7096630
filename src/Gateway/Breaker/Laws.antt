-- ===== src/Gateway/Breaker/Laws.antt =====
-- When a circuit opens, what that means for requests, and how it closes.
use volta_gateway.Prelude.{
  ◌⊎◌, ℕ, ◌≡◌, ◌≢◌, ◌↔◌, refl, inl, inr, true, false, none, some, List, [], ◌∷◌, arith, leb, Text,
  text, text_eq, text_eq_iff, text_eq_refl, text_is_eq, Bool-cases,
}
use volta_gateway.Prelude.Dict.{get}
use volta_gateway.Prelude.Dict.Laws.{get-remove}
use volta_gateway.Gateway.Breaker.{
  CircuitState, CircuitBreaker, is_available, record_success, record_failure, reset, state_name,
  state_of,
}

-- Failures of one backend, at the given times, latest last.
unfoldable pub fail_at : List ℕ → Text → CircuitBreaker → CircuitBreaker
fail_at [] backend b = b
fail_at (now ∷ times) backend b = fail_at times backend (record_failure now backend b)

-- A backend is refused exactly while its state reads "open".
pub is_available_iff :
    (now : ℕ) (backend : Text) (b : CircuitBreaker)
    → (is_available now backend b ≡ false) ↔ (state_of now backend b ≡ text "open")
unfolding is_available state_of state_name
is_available_iff now backend b = ground arith

not_same : (j k : Text) → j ≢ k → text_eq j k ≡ false
not_same j k ne = elim (Bool-cases (text_eq j k)) [
  | inl e ↦ absurd (ne ((text_eq_iff j k).0 e))
  | inr e ↦ e
]

-- A success, like a reset, makes the backend available at once and leaves the others as they were.
pub record_success-available :
    (now : ℕ) (backend other : Text) (b : CircuitBreaker)
    → (is_available now backend (record_success backend b) ≡ true)
      × (backend ≢ other
          → is_available now other (record_success backend b) ≡ is_available now other b)
      × ((reset backend b).0 ≡ record_success backend b)
unfolding is_available record_success reset
record_success-available now backend other b = (
  ground (arith, get-remove backend backend b.backends, text_eq_refl backend),
  λ ne. ground (arith, get-remove backend other b.backends, not_same backend other ne),
  refl,
)

-- What is tracked of a backend that has failed `n` times in a row.
abbrev Tracks : ℕ → Text → CircuitBreaker → Type 0
Tracks n backend b =
    ((get backend b.backends ≡ none) × (n ≡ 0))
    ⊎ ((state : CircuitState) × (get backend b.backends ≡ some state)
        × (state.failures ≡ n)
        × (state.is_open ≡ leb b.threshold n))
