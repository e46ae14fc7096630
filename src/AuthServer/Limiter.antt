-- ===== src/AuthServer/Limiter.antt =====
-- The rate limiter of the endpoints of the auth server: `RateLimiter` of
-- auth-server/src/rate_limit.rs. Time is in nanoseconds, and each call reads the clock once. The
-- environment that `from_env` reads is a parameter.
pub mod Laws
use volta_gateway.Prelude.{
  ℕ, suc, ◌+◌, ◌-◌, ◌*◌, Bool, true, false, List, [], ltb, leb, ◌==◌, if◌then◌else◌, unwrap_or,
  Text, text_is_eq,
}
use volta_gateway.Prelude.Dict.{Dict, get, insert, retain}

-- A bucket: when its window began, and the requests counted in it.
pub record Bucket : Type 0 where
  pub start : ℕ
  pub count : ℕ

pub record RateLimiter : Type 0 where
  pub buckets : Dict Text Bucket
  pub limit : ℕ
  pub window : ℕ
  pub name : Text

unfoldable pub new : Text → (limit window : ℕ) → RateLimiter
new name limit window = record { buckets = []; limit = limit; window = window; name = name }

unfoldable pub is_disabled : RateLimiter → Bool
is_disabled l = l.limit == 0

-- The bucket of a key for this request: a fresh one if there is none or its window is over.
unfoldable pub current : ℕ → Text → RateLimiter → Bucket
current now key l =
    let bucket = unwrap_or (record { start = now; count = 0 }) (get key l.buckets) in
    if leb l.window (now - bucket.start) then record { start = now; count = 0 } else bucket

unfoldable pub check : ℕ → Text → RateLimiter → RateLimiter × Bool
check now key l =
    let bucket = current now key l in
    if l.limit == 0
    then (l, true)
    else if ltb bucket.count l.limit
    then (
      record l { buckets = insert key (record bucket { count = suc bucket.count }) l.buckets },
      true,
    )
    else (record l { buckets = insert key bucket l.buckets }, false)

unfoldable pub gc : ℕ → RateLimiter → RateLimiter
gc now l = record l {
  buckets = retain (λ _ bucket. ltb (now - bucket.start) (l.window * 2)) l.buckets;
}
