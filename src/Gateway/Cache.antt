-- ===== src/Gateway/Cache.antt =====
-- The response cache of a route: gateway/src/cache.rs.
-- Time is in nanoseconds. Each call reads the clock once, and `elapsed` stops at 0. Header names are
-- in lower case, header values are ASCII, a body is a text.
pub mod Laws
use volta_gateway.Prelude.{
  ℕ, suc, ◌-◌, Bool, true, false, not, ◌&&◌, ◌||◌, Option, none, some, List, [], ◌∷◌, ◌++◌, map,
  ltb, leb, ◌==◌, if◌then◌else◌, unwrap_or, length, filter, Text, text, text_is_eq, lower_byte,
  starts_with,
}
use volta_gateway.Prelude.Dict.{Dict, get, insert, remove, contains_key, retain}

pub record CachedEntry : Type 0 where
  pub status : ℕ
  pub headers : List (Text × Text)
  pub body : Text

pub data CacheEntryState : Type 0 where
  fresh stale : CacheEntryState

pub record CacheEntry : Type 0 where
  pub cached : CachedEntry
  pub created : ℕ
  pub last_used : ℕ
  pub ttl : ℕ
  pub state : CacheEntryState

pub record ResponseCache : Type 0 where
  pub entries : Dict Text CacheEntry
  pub max_entries : ℕ

abbrev pub is_state_fresh : CacheEntryState → Bool
is_state_fresh fresh = true
is_state_fresh stale = false

unfoldable pub is_fresh : ℕ → CacheEntry → Bool
is_fresh now entry = is_state_fresh entry.state && ltb (now - entry.created) entry.ttl

unfoldable pub transition_if_stale : ℕ → CacheEntry → CacheEntry
transition_if_stale now entry =
    if is_state_fresh entry.state && leb entry.ttl (now - entry.created)
    then record entry { state = stale }
    else entry

unfoldable pub new : ℕ → ResponseCache
new max_entries = record { entries = []; max_entries = max_entries }

unfoldable pub key : (method host path : Text) → Option Text → Bool → Text
key method host path query ignore_query =
    if ignore_query
    then method ++ text ":" ++ host ++ text ":" ++ path
    else method ++ text ":" ++ host ++ text ":" ++ path ++ text ":" ++ unwrap_or [] query

-- `ResponseCache::get`.
unfoldable pub lookup : ℕ → Text → ResponseCache → ResponseCache × Option CachedEntry
lookup now k c = elim (get k c.entries) [
  | none ↦ (c, none)
  | some found ↦
      let entry = transition_if_stale now found in
      if is_fresh now entry
      then (
        record c { entries = insert k (record entry { last_used = now }) c.entries },
        some entry.cached,
      )
      else (record c { entries = remove k c.entries }, none)
]

-- `Iterator::min_by_key`: the first of the entries that were used least recently.
unfoldable pub oldest : Dict Text CacheEntry → Option (Text × ℕ)
oldest [] = none
oldest ((k, v) ∷ m) = elim (oldest m) [
  | none ↦ some (k, v.last_used)
  | some (j, t) ↦ if leb v.last_used t then some (k, v.last_used) else some (j, t)
]

unfoldable pub drop_stale : ℕ → Dict Text CacheEntry → Dict Text CacheEntry
drop_stale now m = retain (λ _ v. is_state_fresh (transition_if_stale now v).state) m

unfoldable pub evict : ℕ → ℕ → Dict Text CacheEntry → Dict Text CacheEntry
evict max_entries now m =
    let left = drop_stale now m in
    if leb max_entries (length left)
    then elim (oldest left) [ none ↦ left | some (k, _) ↦ remove k left ]
    else left

-- The entries once there is a slot for the key.
unfoldable pub make_room : ℕ → Text → ResponseCache → Dict Text CacheEntry
make_room now k c =
    if leb c.max_entries (length c.entries) && not (contains_key k c.entries)
    then evict c.max_entries now c.entries
    else c.entries

abbrev pub new_entry : ℕ → CachedEntry → ℕ → CacheEntry
new_entry now response ttl = record {
  cached = response;
  created = now;
  last_used = now;
  ttl = ttl;
  state = fresh;
}

unfoldable pub put : ℕ → Text → CachedEntry → (ttl : ℕ) → ResponseCache → ResponseCache
put now k response ttl c =
    if c.max_entries == 0
    then c
    else record c { entries = insert k (new_entry now response ttl) (make_room now k c) }

unfoldable pub stats : ℕ → ResponseCache → ℕ × ℕ
stats now c = (length c.entries, length (filter (λ p. is_fresh now p.1) c.entries))

-- `str::contains` of a text.
unfoldable pub contains_text : Text → Text → Bool
contains_text needle [] = starts_with needle []
contains_text needle (b ∷ s) = starts_with needle (b ∷ s) || contains_text needle s

unfoldable pub is_cacheable : Option Text → Bool
is_cacheable none = true
is_cacheable (some cache_control) =
    let cc = map lower_byte cache_control in
    not (contains_text (text "no-store") cc) && not (contains_text (text "private") cc)

-- `HeaderMap::get` reads the first of several headers of one name.
unfoldable pub is_response_cacheable : Dict Text Text → Bool
is_response_cacheable headers =
    is_cacheable (get (text "cache-control") headers)
    && not (contains_key (text "set-cookie") headers)
    && not (contains_key (text "www-authenticate") headers)
    && not (contains_key (text "proxy-authenticate") headers)
    && not (contains_key (text "vary") headers)

unfoldable pub is_shared_cache_request : Dict Text Text → Bool
is_shared_cache_request headers =
    not (contains_key (text "cookie") headers) && not (contains_key (text "authorization") headers)
