-- ===== src/Gateway/Plugins.antt =====
-- The plugins and their manager: gateway/src/plugin.rs, and the context that `ProxyService::handle`
-- (gateway/src/proxy.rs) gives them. A trait object is one of the four built-in plugins. Time is in
-- nanoseconds, and a call reads the clock once. Decimal numbers, the reading of a header value and
-- the call of the billing service are parameters.
pub mod Manager
pub mod Laws
pub mod Loading
use volta_gateway.Prelude.{
  ℕ, suc, ◌-◌, ◌*◌, u64, Bool, true, false, not, Option, none, some, List, [], ◌∷◌, ◌++◌, length,
  leb, ltb, if◌then◌else◌, unwrap_or, is_empty, Text, text, text_eq, text_is_eq, any, starts_with,
}
use volta_gateway.Prelude.Dict.{Dict, get, insert, remove}
use volta_gateway.Gateway.Assertion.{GatewayAssertionSigner}

pub data PluginState : Type 0 where
  loaded validated active : PluginState
  error rejected : Text → PluginState

pub record PluginContext : Type 0 where
  pub method : Text
  pub host : Text
  pub path : Text
  pub headers : Dict Text Text
  pub client_ip : Text
  pub reject : Option (ℕ × Text)
  pub add_headers : Dict Text Text
  pub remove_headers : List Text

pub record ApiKeyAuth : Type 0 where
  pub header : Text
  pub valid_keys : List Text

-- For each user the requests of the window, and when it began.
pub record RateLimitByUser : Type 0 where
  pub max_requests : ℕ
  pub window_secs : ℕ
  pub user_header : Text
  pub state : Dict Text (ℕ × ℕ)

pub record MonetizerBilling : Type 0 where
  pub plan : Text
  pub status : Text
  pub features : Text
  pub show_ads : Text
  pub trial_end : Text

pub record Monetizer : Type 0 where
  pub verify_url : Text
  pub config_id : Text
  pub cache_ttl_secs : ℕ
  pub user_header : Text
  pub cache : Dict Text (MonetizerBilling × ℕ)
  pub assertion_signer : Option GatewayAssertionSigner

pub record HeaderInjector : Type 0 where
  pub request_headers : Dict Text Text
  pub response_headers : Dict Text Text

pub data Plugin : Type 0 where
  api_key_auth : ApiKeyAuth → Plugin
  rate_limit_by_user : RateLimitByUser → Plugin
  monetizer : Monetizer → Plugin
  header_injector : HeaderInjector → Plugin

abbrev pub secs : ℕ → ℕ
secs n = n * 1000000000

-- `ctx.add_headers.insert`.
abbrev pub add_header : Text → Text → PluginContext → PluginContext
add_header name value ctx = record ctx { add_headers = insert name value ctx.add_headers }

unfoldable pub insert_all : Dict Text Text → Dict Text Text → Dict Text Text
insert_all [] m = m
insert_all ((k, v) ∷ more) m = insert_all more (insert k v m)

-- What a plugin leaves: itself, the context, and whether it returned `Ok`.
pub record Ran : Type 0 where
  pub plugin : Plugin
  pub ctx : PluginContext
  pub ok : Bool

abbrev pub contains : List Text → Text → Bool
contains xs x = any (λ y. text_eq y x) xs

unfoldable pub check_key : ApiKeyAuth → PluginContext → PluginContext
check_key a ctx = elim (get a.header ctx.headers) [
  | none ↦ record ctx { reject = some (401, text "API key required") }
  | some key ↦
      if contains a.valid_keys key
      then ctx
      else record ctx { reject = some (403, text "Invalid API key") }
]

-- The entry of a user for this request.
unfoldable pub user_entry : ℕ → Text → RateLimitByUser → ℕ × ℕ
user_entry now user p =
    let entry = unwrap_or (0, now) (get user p.state) in
    if leb (secs p.window_secs) (now - entry.1) then (1, now) else (u64 (suc entry.0), entry.1)

-- The window that has just begun is not held against the limit.
unfoldable pub is_over : ℕ → Text → RateLimitByUser → Bool
is_over now user p =
    let entry = unwrap_or (0, now) (get user p.state) in
    if leb (secs p.window_secs) (now - entry.1)
    then false
    else ltb p.max_requests (u64 (suc entry.0))

module _ (show_u64 : ℕ → Text) where
  abbrev too_many : RateLimitByUser → PluginContext → PluginContext
  too_many p ctx = add_header (text "Retry-After") (show_u64 p.window_secs) (record ctx {
    reject = some (
      429,
      text "User rate limit exceeded ("
          ++ (show_u64 p.max_requests ++ (text "/" ++ (show_u64 p.window_secs ++ text "s)"))),
    );
  })

  unfoldable pub limit_user : ℕ → RateLimitByUser → PluginContext → RateLimitByUser × PluginContext
  limit_user now p ctx = elim (get p.user_header ctx.headers) [
    | none ↦ (p, ctx)
    | some user ↦ (
      record p { state = insert user (user_entry now user p) p.state },
      if is_over now user p then too_many p ctx else ctx,
    )
  ]

-- A stale entry is removed.
unfoldable pub get_cached : ℕ → Text → Monetizer → Option MonetizerBilling × Monetizer
get_cached now user p = elim (get user p.cache) [
  | none ↦ (none, p)
  | some (billing, at) ↦
      if ltb (now - at) (secs p.cache_ttl_secs)
      then (some billing, p)
      else (none, record p { cache = remove user p.cache })
]

abbrev pub max_cache_entries : ℕ
max_cache_entries = 10000

unfoldable pub set_cached : ℕ → Text → MonetizerBilling → Monetizer → Monetizer
set_cached now user billing p =
    let kept = if leb max_cache_entries (length p.cache) then [] else p.cache in
    record p { cache = insert user (billing, now) kept }

unfoldable pub free_headers : PluginContext → PluginContext
free_headers ctx = add_header (text "X-Monetizer-Show-Ads") (text "true") (
    add_header (text "X-Monetizer-Features") [] (
      add_header (text "X-Monetizer-Status") (text "none")
        (add_header (text "X-Monetizer-Plan") (text "free") ctx)))

unfoldable pub billing_headers : MonetizerBilling → PluginContext → PluginContext
billing_headers b ctx =
    let paid = add_header (text "X-Monetizer-Show-Ads") b.show_ads (
      add_header (text "X-Monetizer-Features") b.features (
        add_header (text "X-Monetizer-Status") b.status
          (add_header (text "X-Monetizer-Plan") b.plan ctx))) in
    if is_empty b.trial_end
    then paid
    else add_header (text "X-Monetizer-Trial-End") b.trial_end paid

abbrev verify_address : Monetizer → Text → Text
verify_address p user =
    p.verify_url ++ (text "?user=" ++ (user ++ (text "&config=" ++ p.config_id)))

-- `fetch` is the call under an address, signed by the signer if there is one; `none` is an error.
module _ (fetch : Text → Option GatewayAssertionSigner → Option MonetizerBilling) where
  unfoldable pub bill : ℕ → Monetizer → PluginContext → Ran
  bill now p ctx = elim (get p.user_header ctx.headers) [
    | none ↦ record { plugin = monetizer p; ctx = free_headers ctx; ok = true }
    | some user ↦
        let (cached, q) = get_cached now user p in
        elim cached [
          | some b ↦ record { plugin = monetizer q; ctx = billing_headers b ctx; ok = true }
          | none ↦ elim (fetch (verify_address p user) p.assertion_signer) [
            | none ↦ record { plugin = monetizer q; ctx = ctx; ok = false }
            | some b ↦ record {
              plugin = monetizer (set_cached now user b q);
              ctx = billing_headers b ctx;
              ok = true;
            }
          ]
        ]
  ]

  -- `Plugin::on_request`.
  unfoldable pub on_request : (ℕ → Text) → ℕ → Plugin → PluginContext → Ran
  on_request show_u64 now (api_key_auth a) ctx = record {
    plugin = api_key_auth a;
    ctx = check_key a ctx;
    ok = true;
  }
  on_request show_u64 now (rate_limit_by_user p) ctx =
      let (q, after) = limit_user show_u64 now p ctx in
      record { plugin = rate_limit_by_user q; ctx = after; ok = true }
  on_request show_u64 now (monetizer p) ctx = bill now p ctx
  on_request show_u64 now (header_injector h) ctx = record {
    plugin = header_injector h;
    ctx = record ctx { add_headers = insert_all h.request_headers ctx.add_headers };
    ok = true;
  }

-- `Plugin::on_response`: only the header injector does anything.
unfoldable pub on_response : Plugin → PluginContext → PluginContext
on_response (header_injector h) ctx = record ctx {
  add_headers = insert_all h.response_headers ctx.add_headers;
}
on_response _ ctx = ctx
