-- ===== src/Gateway/Limiter/Collect.antt =====
-- Collecting idle entries changes no later decision.
use volta_gateway.Prelude.{
  ℕ, ◌-◌, ◌≤◌, ◌≡◌, refl, sym, inl, inr, arith, ltb, Eq, Option-cases, Bool-cases,
}
use volta_gateway.Prelude.Dict.{get, retain, Nodup}
use volta_gateway.Prelude.Dict.Laws.{get-retain}
use volta_gateway.Gateway.Limiter.{second, Window, RateLimiter, tick, entry, allow, gc}

-- A window that is over and a fresh one answer alike, if the limit is not 0.
tick-over :
    (limit now : ℕ) (w : Window)
    → second ≤ now - w.start
    → 1 ≤ limit
    → tick limit now w ≡ tick limit now (record { count = 0; start = now })
unfolding tick
tick-over limit now w over some_limit = ground arith

module _ {IpAddr : Type 0} ⦃e : Eq IpAddr⦄ where
  -- After a collection with a time to live of a second or more, a later request gets the answer
  -- that it would have got without it, and leaves the same window for its address, if the limit is
  -- not 0 and the table holds each address once.
  pub gc-allow :
      (ttl now later : ℕ) (ip : IpAddr) (l : RateLimiter IpAddr)
      → second ≤ ttl
      → 1 ≤ l.per_ip_limit
      → Nodup l.per_ip
      → now ≤ later
      → ((allow later ip (gc ttl now l)).1 ≡ (allow later ip l).1)
        × (tick l.per_ip_limit later (entry later ip (gc ttl now l).per_ip)
            ≡ tick l.per_ip_limit later (entry later ip l.per_ip))
  unfolding allow gc
  gc-allow ttl now later ip l long some_limit unique after = (ground (arith, kept), kept)
    where
      kept :
          tick l.per_ip_limit later
            (entry later ip (retain (λ _ w. ltb (now - w.start) ttl) l.per_ip))
          ≡ tick l.per_ip_limit later (entry later ip l.per_ip)
      kept =
          rw (get-retain (λ _ w. ltb (now - w.start) ttl) ip l.per_ip unique)
            (elim (Option-cases (get ip l.per_ip)) [
              | inl absent ↦ rw absent refl
              | inr (w, found) ↦ rw found (elim (Bool-cases (ltb (now - w.start) ttl)) [
                | inl fresh ↦ rw fresh refl
                | inr idle ↦
                    rw idle (sym (tick-over l.per_ip_limit later w (ground arith) some_limit))
              ])
            ])
