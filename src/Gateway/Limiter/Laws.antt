-- ===== src/Gateway/Limiter/Laws.antt =====
-- How many requests a window lets through, for one window and for one address.
use mathlib.Core.Bool.{false≢true}
use volta_gateway.Prelude.{
  ℕ, suc, ◌+◌, ◌-◌, ◌≤◌, ◌<◌, ◌≡◌, ◌≢◌, refl, ◌∙◌, sym, Bool, true, false, not, some, List, [], ◌∷◌,
  arith, ltb, if◌then◌else◌, Eq, u64_max, inl, inr, min, length, All, Bool-cases,
}
use volta_gateway.Prelude.Dict.{get}
use volta_gateway.Prelude.Dict.Laws.{beq_refl, get-insert, get-insert_self}
use volta_gateway.Gateway.Limiter.{second, Window, RateLimiter, tick, entry, allow}

abbrev pub counted : Bool → ℕ → ℕ
counted true n = suc n
counted false n = n

-- Requests at the given times, one after another: the number that is let through.
unfoldable pub passed : ℕ → Window → List ℕ → ℕ
passed limit w [] = 0
passed limit w (now ∷ times) =
    let (w', allowed) = tick limit now w in counted allowed (passed limit w' times)

-- Inside its window a request is counted, and passes if the count is within the limit.
tick-inside :
    (limit now : ℕ) (w : Window)
    → now - w.start < second
    → w.count < u64_max
    → tick limit now w ≡ (record w { count = suc w.count }, not (ltb limit (suc w.count)))
unfolding tick
tick-inside limit now w h small = ground arith

-- Of the requests that fall in one window, as many pass as the limit leaves room for, and no
-- more, as long as the counter does not overflow.
pub passed-window :
    (limit : ℕ) (w : Window) (times : List ℕ)
    → All (λ now. now - w.start < second) times
    → w.count + length times ≤ u64_max
    → passed limit w times ≡ min (length times) (limit - w.count)
unfolding passed
passed-window limit w [] h small = omega arith
passed-window limit w (now ∷ times) (inside, h) small =
    rw (tick-inside limit now w inside (omega arith))
      (ground (arith, passed-window limit (record w { count = suc w.count }) times h (omega arith)))

-- What a request of the address does to its window.
record Moves (limit : ℕ) (w w' : Window) (allowed : Bool) : Type 0 where
  start : w'.start ≡ w.start
  grows : w.count ≤ w'.count
  by_one : w'.count ≤ suc w.count
  room : allowed ≡ true → (w.count < w'.count) × (w.count < limit)

module _ {IpAddr : Type 0} ⦃e : Eq IpAddr⦄ where
  -- Requests with their times and addresses: how many of one address are let through.
  unfoldable pub passed_of : IpAddr → RateLimiter IpAddr → List (ℕ × IpAddr) → ℕ
  passed_of ip l [] = 0
  passed_of ip l ((now, from) ∷ rest) =
      let (l', allowed) = allow now from l in
      let others = passed_of ip l' rest in if e.beq from ip then counted allowed others else others

  -- A request leaves the windows of other addresses alone.
  pub get-allow :
      (now : ℕ) (ip other : IpAddr) (l : RateLimiter IpAddr)
      → ip ≢ other
      → get other (allow now ip l).0.per_ip ≡ get other l.per_ip
  unfolding allow
  get-allow now ip other l ne = ground (
    arith,
    get-insert ip other (tick l.per_ip_limit now (entry now ip l.per_ip)).0 l.per_ip,
    e.beq_iff ip other,
  )

  allow-global :
      (now : ℕ) (ip : IpAddr) (l : RateLimiter IpAddr)
      → (allow now ip l).0.per_ip_limit ≡ l.per_ip_limit
  unfolding allow
  allow-global now ip l = ground arith

  allow-Moves :
      (now : ℕ) (ip : IpAddr) (l : RateLimiter IpAddr) (w : Window)
      → get ip l.per_ip ≡ some w
      → now - w.start < second
      → w.count < u64_max
      → (w' : Window) × (get ip (allow now ip l).0.per_ip ≡ some w')
        × Moves l.per_ip_limit w w' (allow now ip l).1
  unfolding allow
  allow-Moves now ip l w at inside small = elim (Bool-cases (tick l.global_limit now l.global).1) [
    | inl within ↦ (
      record w { count = suc w.count },
      rw (within, at, get-insert_self, tick-inside l.per_ip_limit now w inside small),
      rw (within, at, tick-inside l.per_ip_limit now w inside small) (ground arith),
    )
    | inr over ↦ (w, rw over at, rw over (ground arith))
  ]

  passed_of-start :
      (ip : IpAddr) (start : ℕ) (l : RateLimiter IpAddr) (w : Window) (requests : List (ℕ × IpAddr))
      → get ip l.per_ip ≡ some w
      → w.start ≡ start
      → All (λ r. r.0 - start < second) requests
      → w.count + length requests ≤ u64_max
      → passed_of ip l requests ≤ l.per_ip_limit - w.count
  unfolding passed_of
  passed_of-start ip start l w [] at s h small = omega arith
  passed_of-start ip start l w ((now, from) ∷ rest) at s (inside, h) small =
      elim (Bool-cases (e.beq from ip)) [
        | inl same ↦
            let is_ip : from ≡ ip = (e.beq_iff from ip).0 same in
            let (w', at', m) = allow-Moves now ip l w at (rw (← s) at inside) (omega arith) in
            let ih =
              passed_of-start ip start (allow now ip l).0 w' rest at' (m.start ∙ s) h
                (omega (arith, m)) in
            rw (is_ip, beq_refl ip) (ground (arith, ih, allow-global now ip l, m))
        | inr other ↦
            let ne : from ≢ ip = λ x. false≢true (sym other ∙ (e.beq_iff from ip).1 x) in
            let ih =
              passed_of-start ip start (allow now from l).0 w rest (get-allow now from ip l ne ∙ at)
                s h (omega arith) in
            rw other (omega (arith, ih, allow-global now from l))
      ]

  -- While the window of an address lasts, no mix of requests lets more of its requests through than
  -- its limit leaves room for, as long as the counter does not overflow.
  pub passed_of-le :
      (ip : IpAddr) (l : RateLimiter IpAddr) (w : Window) (requests : List (ℕ × IpAddr))
      → get ip l.per_ip ≡ some w
      → All (λ r. r.0 - w.start < second) requests
      → w.count + length requests ≤ u64_max
      → passed_of ip l requests ≤ l.per_ip_limit - w.count
  passed_of-le ip l w requests at h small = passed_of-start ip w.start l w requests at refl h small
