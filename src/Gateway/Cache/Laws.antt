-- ===== src/Gateway/Cache/Laws.antt =====
-- What the response cache answers, and that it stays within its capacity.
use volta_gateway.Prelude.{
  ℕ, ◌-◌, ◌≤◌, ◌<◌, ◌≡◌, refl, inl, inr, true, false, Option, none, some, [], ◌∷◌, arith, ltb, ◌==◌,
  if◌then◌else◌, length, Text, text_eq, text_eq_iff, text_eq_refl, and_then, text_is_eq, Bool-cases,
  Option-cases,
}
use volta_gateway.Prelude.Dict.{Dict, get, insert, contains_key}
use volta_gateway.Prelude.Dict.Laws.{
  get-insert, get-insert_self, get-remove, length-insert, length-remove_lt, length-retain,
}
use volta_gateway.Gateway.Cache.{
  CachedEntry, CacheEntry, ResponseCache, is_fresh, transition_if_stale, lookup, is_state_fresh,
  oldest, drop_stale, evict, make_room, new_entry, put,
}

-- The oldest entry is one of the map, and there is one unless the map is empty.
oldest-contains :
    (m : Dict Text CacheEntry) (k : Text) (t : ℕ) → oldest m ≡ some (k, t) → contains_key k m ≡ true
unfolding oldest contains_key get
oldest-contains [] k t h = cc
oldest-contains ((j, v) ∷ m) k t h = elim (Option-cases (oldest m)) [
  | inl empty ↦ ground (arith, text_eq_iff j k)
  | inr ((i, s), found) ↦ ground (arith, text_eq_iff j k, oldest-contains m k t)
]

oldest-none : (m : Dict Text CacheEntry) → oldest m ≡ none → length m ≡ 0
unfolding oldest
oldest-none [] h = refl
oldest-none ((j, v) ∷ m) h = ground arith

evict-lt :
    (max_entries now : ℕ) (m : Dict Text CacheEntry)
    → 1 ≤ max_entries
    → length m ≤ max_entries
    → length (evict max_entries now m) < max_entries
unfolding evict drop_stale
evict-lt max_entries now m some_room h =
    let kept = length-retain (λ _ v. is_state_fresh (transition_if_stale now v).state) m in
    elim (Option-cases (oldest (drop_stale now m))) [
      | inl empty ↦ ground (arith, kept, oldest-none (drop_stale now m) empty)
      | inr ((k, t), found) ↦ ground (
        arith,
        kept,
        length-remove_lt k (drop_stale now m) (oldest-contains (drop_stale now m) k t found),
      )
    ]

make_room-length :
    (now : ℕ) (k : Text) (c : ResponseCache) (entry : CacheEntry)
    → 1 ≤ c.max_entries
    → length c.entries ≤ c.max_entries
    → length (insert k entry (make_room now k c)) ≤ c.max_entries
unfolding make_room
make_room-length now k c entry some_room h = ground (
  arith,
  evict-lt c.max_entries now c.entries some_room h,
  length-insert k entry c.entries,
  length-insert k entry (evict c.max_entries now c.entries),
)

-- A cache within its capacity stays within it when a response is stored.
pub put-le :
    (now : ℕ) (k : Text) (response : CachedEntry) (ttl : ℕ) (c : ResponseCache)
    → length c.entries ≤ c.max_entries
    → length (put now k response ttl c).entries ≤ c.max_entries
unfolding put
put-le now k response ttl c h = elim (Bool-cases (c.max_entries == 0)) [
  | inl none_kept ↦ rw none_kept h
  | inr kept ↦ rw kept (make_room-length now k c (new_entry now response ttl) (ground arith) h)
]

-- What was stored in a cache of some capacity is found until its time to live is over, and not
-- from then on.
pub lookup-put :
    (now later : ℕ) (k : Text) (response : CachedEntry) (ttl : ℕ) (c : ResponseCache)
    → 1 ≤ c.max_entries
    → (lookup later k (put now k response ttl c)).1
      ≡ (if ltb (later - now) ttl then some response else none)
unfolding lookup put is_fresh transition_if_stale
lookup-put now later k response ttl c some_room =
    ground (arith, get-insert_self k (new_entry now response ttl) (make_room now k c))

-- A lookup of `j` leaves the entries of other keys.
get-lookup :
    (now : ℕ) (j k : Text) (c : ResponseCache)
    → text_eq j k ≡ false
    → get k (lookup now j c).0.entries ≡ get k c.entries
unfolding lookup
get-lookup now j k c other = elim (Option-cases (get j c.entries)) [
  | inl missing ↦ ground arith
  | inr (v, found) ↦ ground (
    arith,
    get-insert j k (record (transition_if_stale now v) { last_used = now }) c.entries,
    get-remove j k c.entries,
  )
]

abbrev renewed : ℕ → CacheEntry → Option CacheEntry
renewed now v =
    if is_fresh now (transition_if_stale now v)
    then some (record (transition_if_stale now v) { last_used = now })
    else none

get-lookup_self :
    (now : ℕ) (k : Text) (c : ResponseCache)
    → get k (lookup now k c).0.entries ≡ and_then (get k c.entries) (renewed now)
unfolding lookup
get-lookup_self now k c = elim (Option-cases (get k c.entries)) [
  | inl missing ↦ ground arith
  | inr (v, found) ↦ ground (
    arith,
    get-insert_self k (record (transition_if_stale now v) { last_used = now }) c.entries,
    get-remove k k c.entries,
    text_eq_refl k,
  )
]

abbrev answer : ℕ → CacheEntry → Option CachedEntry
answer now v = if is_fresh now (transition_if_stale now v) then some v.cached else none

lookup_lem :
    (now : ℕ) (k : Text) (c : ResponseCache)
    → (lookup now k c).1 ≡ and_then (get k c.entries) (answer now)
unfolding lookup transition_if_stale
lookup_lem now k c = elim (Option-cases (get k c.entries)) [
  | inl missing ↦ ground arith
  | inr (v, found) ↦ ground arith
]

answer-renewed :
    (now later : ℕ) (v : CacheEntry)
    → now ≤ later
    → and_then (renewed now v) (answer later) ≡ answer later v
unfolding is_fresh transition_if_stale
answer-renewed now later v after = ground arith

-- A lookup changes no answer of a later lookup: a hit does not extend the time to live.
pub lookup-lookup :
    (now later : ℕ) (j k : Text) (c : ResponseCache)
    → now ≤ later
    → (lookup later k (lookup now j c).0).1 ≡ (lookup later k c).1
lookup-lookup now later j k c after = elim (Bool-cases (text_eq j k)) [
  | inl same ↦
      let is_k : j ≡ k = (text_eq_iff j k).0 same in
      rw
        (is_k, lookup_lem later k (lookup now k c).0, lookup_lem later k c, get-lookup_self now k c)
        (elim (Option-cases (get k c.entries)) [
          | inl missing ↦ rw missing refl
          | inr (v, found) ↦ rw found (answer-renewed now later v after)
        ])
  | inr other ↦
      rw (lookup_lem later k (lookup now j c).0, lookup_lem later k c, get-lookup now j k c other)
        refl
]
