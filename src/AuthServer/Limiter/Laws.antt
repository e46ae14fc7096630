-- ===== src/AuthServer/Limiter/Laws.antt =====
-- How many requests of a key pass, and that collecting buckets changes no answer.
use volta_gateway.Prelude.{
  ℕ, suc, ◌-◌, ◌*◌, ◌≤◌, ◌<◌, ◌≡◌, ◌∙◌, inl, inr, Bool, true, false, some, List, [], ◌∷◌, arith,
  ltb, if◌then◌else◌, min, All, Text, text_eq, text_eq_iff, text_eq_refl, text_is_eq, Bool-cases,
  Option-cases,
}
use volta_gateway.Prelude.Dict.{get, Nodup}
use volta_gateway.Prelude.Dict.Laws.{get-insert, get-insert_self, get-retain}
use volta_gateway.AuthServer.Limiter.{Bucket, RateLimiter, current, check, gc}

abbrev pub counted : Bool → ℕ → ℕ
counted true n = suc n
counted false n = n

-- Requests with their times and keys, one after another: how many of one key are let through.
unfoldable pub passed_of : Text → RateLimiter → List (ℕ × Text) → ℕ
passed_of key l [] = 0
passed_of key l ((now, from) ∷ rest) =
    let (l', allowed) = check now from l in
    let others = passed_of key l' rest in
    if text_eq from key then counted allowed others else others

-- The number of requests of a key.
unfoldable pub requests_of : Text → List (ℕ × Text) → ℕ
requests_of key [] = 0
requests_of key ((now, from) ∷ rest) =
    let others = requests_of key rest in if text_eq from key then suc others else others

check-config :
    (now : ℕ) (key : Text) (l : RateLimiter)
    → ((check now key l).0.limit ≡ l.limit) × ((check now key l).0.window ≡ l.window)
unfolding check
check-config now key l = (ground arith, ground arith)

-- A request leaves the buckets of other keys alone.
get-check :
    (now : ℕ) (from key : Text) (l : RateLimiter)
    → text_eq from key ≡ false
    → get key (check now from l).0.buckets ≡ get key l.buckets
unfolding check
get-check now from key l other = ground (
  arith,
  get-insert from key (record (current now from l) { count = suc (current now from l).count })
      l.buckets,
  get-insert from key (current now from l) l.buckets,
)

-- Inside its window the key's bucket counts one more request if there is room, and stays if not.
get-check_self :
    (now : ℕ) (key : Text) (l : RateLimiter) (b : Bucket)
    → 1 ≤ l.limit
    → get key l.buckets ≡ some b
    → now - b.start < l.window
    → ((check now key l).1 ≡ ltb b.count l.limit)
      × (get key (check now key l).0.buckets
          ≡ some (if ltb b.count l.limit then record b { count = suc b.count } else b))
unfolding check current
get-check_self now key l b on at inside =
    let now_in : current now key l ≡ b = unfold current in ground arith in
    (
      ground arith,
      ground (
        arith,
        get-insert_self key (record b { count = suc b.count }) l.buckets,
        get-insert_self key b l.buckets,
      ),
    )

-- While the window of a key lasts, whatever comes in between, exactly as many of its requests pass
-- as the limit, which is not 0 and which the count is within, leaves room for.
pub passed_of-min :
    (key : Text) (l : RateLimiter) (b : Bucket) (requests : List (ℕ × Text))
    → 1 ≤ l.limit
    → get key l.buckets ≡ some b
    → b.count ≤ l.limit
    → All (λ r. r.0 - b.start < l.window) requests
    → passed_of key l requests ≡ min (requests_of key requests) (l.limit - b.count)
unfolding passed_of requests_of
passed_of-min key l b [] on at full h = omega arith
passed_of-min key l b ((now, from) ∷ rest) on at full (inside, h) =
    let (same_limit, same_window) = check-config now from l in
    elim (Bool-cases (text_eq from key)) [
      | inl same ↦
          let is_key : from ≡ key = (text_eq_iff from key).0 same in
          let (key_limit, key_window) = check-config now key l in
          let (said, left) = get-check_self now key l b on at inside in
          elim (Bool-cases (ltb b.count l.limit)) [
            | inl room ↦
                let ih =
                  passed_of-min key (check now key l).0 (record b { count = suc b.count }) rest
                    (omega (arith, key_limit)) (rw room at left) (ground (arith, key_limit))
                    (rw key_window h) in
                rw (is_key, text_eq_refl key, said, room) (ground (arith, ih, key_limit))
            | inr none_left ↦
                let ih =
                  passed_of-min key (check now key l).0 b rest (omega (arith, key_limit))
                    (rw none_left at left) (omega (arith, key_limit)) (rw key_window h) in
                rw (is_key, text_eq_refl key, said, none_left) (ground (arith, ih, key_limit))
          ]
      | inr other ↦
          let ih =
            passed_of-min key (check now from l).0 b rest (omega (arith, same_limit))
              (get-check now from key l other ∙ at) (omega (arith, same_limit))
              (rw same_window h) in
          rw other (omega (arith, ih, same_limit))
    ]

-- Collecting old buckets changes the answer to no later request, if each key is held once.
pub gc-check :
    (now later : ℕ) (key : Text) (l : RateLimiter)
    → now ≤ later
    → Nodup l.buckets
    → (check later key (gc now l)).1 ≡ (check later key l).1
unfolding check current gc
gc-check now later key l after unique = elim (Option-cases (get key l.buckets)) [
  | inl absent ↦
      ground (arith, get-retain (λ _ b. ltb (now - b.start) (l.window * 2)) key l.buckets unique)
  | inr (b, found) ↦
      ground (arith, get-retain (λ _ b. ltb (now - b.start) (l.window * 2)) key l.buckets unique)
]
