-- ===== src/Tests/Limits.antt =====
-- The rate limiter and the circuit breaker of gateway/src/proxy.rs on concrete sequences of calls.
use volta_gateway.Prelude.{ℕ, ◌≤◌, refl, [], ◌∷◌, arith, Text, text, text_is_eq, nat_eq}
use volta_gateway.Prelude.Dict.{get}
use volta_gateway.Gateway.Limiter.{Window, RateLimiter}
use volta_gateway.Gateway.Limiter.Laws.{passed_of, passed_of-le}

abbrev window : Window
window = record { count = 1; start = 5 }

-- Addresses are numbers here.
abbrev limiter : RateLimiter ℕ
limiter = record {
  global = record { count = 0; start = 5 };
  global_limit = 100;
  per_ip = (9, window) ∷ [];
  per_ip_limit = 3;
}

passed_of-le_example : passed_of 9 limiter ((6, 9) ∷ (7, 4) ∷ (8, 9) ∷ (9, 9) ∷ []) ≤ 2
passed_of-le_example =
    passed_of-le 9 limiter window ((6, 9) ∷ (7, 4) ∷ (8, 9) ∷ (9, 9) ∷ []) (unfold get in refl)
      (omega arith, (omega arith, (omega arith, (omega arith, tt)))) (omega arith)

abbrev backend : Text
backend = text "http://b"
