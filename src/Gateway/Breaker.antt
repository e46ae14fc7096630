-- ===== src/Gateway/Breaker.antt =====
-- The circuit breaker for each backend: `CircuitBreaker` of gateway/src/proxy.rs.
-- Time is in seconds; each call reads the clock once.
pub mod Laws
use volta_gateway.Prelude.{
  ℕ, suc, ◌+◌, ◌-◌, Bool, true, false, not, Option, none, some, List, [], ◌∷◌, map, leb,
  if◌then◌else◌, unwrap_or, is_some, u32, Text, text, text_is_eq,
}
use volta_gateway.Prelude.Dict.{Dict, get, insert, remove}

pub record CircuitState : Type 0 where
  pub failures : ℕ
  pub last_failure : ℕ
  pub is_open : Bool

pub record CircuitBreaker : Type 0 where
  pub backends : Dict Text CircuitState
  pub threshold : ℕ
  pub recovery_secs : ℕ

pub record CircuitStatus : Type 0 where
  pub backend : Text
  pub state : Text
  pub failures : ℕ

unfoldable pub new : (threshold recovery_secs : ℕ) → CircuitBreaker
new threshold recovery_secs = record {
  backends = [];
  threshold = threshold;
  recovery_secs = recovery_secs;
}

unfoldable pub is_available : ℕ → Text → CircuitBreaker → Bool
is_available now backend b = elim (get backend b.backends) [
  | none ↦ true
  | some state ↦ if not state.is_open then true else leb b.recovery_secs (now - state.last_failure)
]

unfoldable pub record_success : Text → CircuitBreaker → CircuitBreaker
record_success backend b = record b { backends = remove backend b.backends }

-- The entry of a backend once one more failure is counted.
unfoldable pub count_failure : (threshold now : ℕ) → CircuitState → CircuitState
count_failure threshold now state =
    let failures = u32 (state.failures + 1) in
    record {
      failures = failures;
      last_failure = now;
      is_open = if leb threshold failures then true else state.is_open;
    }

unfoldable pub record_failure : ℕ → Text → CircuitBreaker → CircuitBreaker
record_failure now backend b =
    let state =
      unwrap_or (record { failures = 0; last_failure = now; is_open = false })
        (get backend b.backends) in
    record b { backends = insert backend (count_failure b.threshold now state) b.backends }

unfoldable pub reset : Text → CircuitBreaker → CircuitBreaker × Bool
reset backend b =
    (record b { backends = remove backend b.backends }, is_some (get backend b.backends))

unfoldable pub state_name : (recovery_secs now : ℕ) → CircuitState → Text
state_name recovery_secs now state =
    if not state.is_open
    then text "closed"
    else if leb recovery_secs (now - state.last_failure)
    then text "half-open"
    else text "open"

unfoldable pub status : ℕ → CircuitBreaker → List CircuitStatus
status now b =
    map
      (λ p. record {
        backend = p.0;
        state = state_name b.recovery_secs now p.1;
        failures = p.1.failures;
      })
      b.backends

unfoldable pub state_of : ℕ → Text → CircuitBreaker → Text
state_of now backend b = elim (get backend b.backends) [
  | none ↦ text "closed"
  | some state ↦ state_name b.recovery_secs now state
]
