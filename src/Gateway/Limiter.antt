-- ===== src/Gateway/Limiter.antt =====
-- The gateway's rate limiter: `RateLimiter` of gateway/src/proxy.rs and `with_rate_limit`.
-- Time is in nanoseconds. Each call reads the clock once, and `elapsed` stops at 0, as Rust's does.
pub mod Laws
pub mod Collect
use volta_gateway.Prelude.{
  ℕ, suc, ◌+◌, ◌-◌, Bool, true, false, not, Option, none, some, List, [], ◌∷◌, ltb, leb, ◌==◌,
  if◌then◌else◌, Eq, unwrap_or, u64, u64_max,
}
use volta_gateway.Prelude.Dict.{Dict, get, insert, retain}

abbrev pub second : ℕ
second = 1000000000

pub record Window : Type 0 where
  pub count : ℕ
  pub start : ℕ

pub record RateLimiter (IpAddr : Type 0) : Type 0 where
  pub global : Window
  pub global_limit : ℕ
  pub per_ip : Dict IpAddr Window
  pub per_ip_limit : ℕ

pub record RateLimitConfig : Type 0 where
  pub requests_per_second : ℕ
  pub per_ip_rps : ℕ

-- One window of one second: a window that is over starts again with this request.
unfoldable pub tick : (limit now : ℕ) → Window → Window × Bool
tick limit now w =
    if leb second (now - w.start)
    then (record { count = 1; start = now }, true)
    else let count = u64 (w.count + 1) in (record w { count = count }, not (ltb limit count))

module _ {IpAddr : Type 0} ⦃e : Eq IpAddr⦄ where
  unfoldable pub new : (global_rps per_ip_rps now : ℕ) → RateLimiter IpAddr
  new global_rps per_ip_rps now = record {
    global = record { count = 0; start = now };
    global_limit = global_rps;
    per_ip = [];
    per_ip_limit = per_ip_rps;
  }

  -- The entry of an address, fresh if there is none.
  abbrev pub entry : ℕ → IpAddr → Dict IpAddr Window → Window
  entry now ip m = unwrap_or (record { count = 0; start = now }) (get ip m)

  -- The block under the lock of the global window, and the one under the lock of the addresses.
  abbrev pub allow_global : ℕ → RateLimiter IpAddr → RateLimiter IpAddr × Bool
  allow_global now l =
      let (g, within) = tick l.global_limit now l.global in (record l { global = g }, within)

  abbrev pub allow_ip : ℕ → IpAddr → RateLimiter IpAddr → RateLimiter IpAddr × Bool
  allow_ip now ip l =
      let (w, allowed) = tick l.per_ip_limit now (entry now ip l.per_ip) in
      (record l { per_ip = insert ip w l.per_ip }, allowed)

  -- Both blocks, with no other call between them: in the source one may come, since the first lock is
  -- released before the second is taken. Neither block reads what the other writes.
  unfoldable pub allow : ℕ → IpAddr → RateLimiter IpAddr → RateLimiter IpAddr × Bool
  allow now ip l =
      let (counted, within) = allow_global now l in
      if not within then (counted, false) else allow_ip now ip counted

  unfoldable pub gc : (ttl now : ℕ) → RateLimiter IpAddr → RateLimiter IpAddr
  gc ttl now l = record l { per_ip = retain (λ _ w. ltb (now - w.start) ttl) l.per_ip }

  -- 0 in the configuration means no limit.
  unfoldable pub with_rate_limit : RateLimitConfig → ℕ → RateLimiter IpAddr
  unfolding new
  with_rate_limit cfg now =
      new (if cfg.requests_per_second == 0 then u64_max else cfg.requests_per_second)
        (if cfg.per_ip_rps == 0 then u64_max else cfg.per_ip_rps) now
