-- ===== src/Tests/Stores.antt =====
-- The response cache, the session store and the limiter of the auth server on concrete contents.
use volta_gateway.Prelude.{text_is_eq, ◌≤◌, ◌≡◌, none, [], ◌∷◌, arith, length, text}
use volta_gateway.Prelude.Dict.{get}
use volta_gateway.Gateway.Cache.{CachedEntry, new_entry, ResponseCache, put}
use volta_gateway.Gateway.Cache.Laws.{put-le}
use volta_gateway.AuthCore.Sessions.{SessionRecord, SessionStore, find_session}
use volta_gateway.AuthCore.Sessions.Refines.{if_valid, evolve_all, find_session-run}
use volta_gateway.AuthCore.Sessions.Laws.{create_call, touch_call, run}
use volta_gateway.AuthServer.Limiter.{RateLimiter}

abbrev page : CachedEntry
page = record { status = 200; headers = []; body = text "hello" }

abbrev full_cache : ResponseCache
full_cache = record { entries = (text "GET:h:/", new_entry 10 page 50) ∷ []; max_entries = 1 }

put-le_example : length (put 20 (text "GET:h:/a") page 30 full_cache).entries ≤ 1
put-le_example = put-le 20 (text "GET:h:/a") page 30 full_cache (omega arith)

abbrev session : SessionRecord
session = record {
  session_id = text "s1";
  user_id = text "u1";
  tenant_id = text "t1";
  return_to = none;
  created_at = 100;
  last_active_at = 100;
  expires_at = 900;
  invalidated_at = none;
  mfa_verified_at = none;
  ip_address = none;
  user_agent = none;
  csrf_token = none;
  email = none;
  tenant_slug = none;
  roles = text "MEMBER" ∷ [];
  display_name = none;
}

abbrev store : SessionStore
store = record { sessions = (text "s1", session) ∷ [] }

abbrev limiter : RateLimiter
limiter = record {
  buckets = (text "a", record { start = 5; count = 1 }) ∷ [];
  limit = 2;
  window = 100;
  name = text "login";
}

find_session-run_example :
    find_session 950
      (text "s1")
      (run (create_call session ∷ touch_call 800 (text "s1") 1000 ∷ []) store)
    ≡ if_valid 950 (
        evolve_all
          (text "s1")
          (create_call session ∷ touch_call 800 (text "s1") 1000 ∷ [])
          (get (text "s1") store.sessions))
find_session-run_example =
    find_session-run (create_call session ∷ touch_call 800 (text "s1") 1000 ∷ []) 950 (text "s1")
      store (tt, tt)
