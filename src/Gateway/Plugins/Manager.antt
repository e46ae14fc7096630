-- ===== src/Gateway/Plugins/Manager.antt =====
-- `PluginManager`, and the contexts of a request and of a response.
use volta_gateway.Prelude.{
  ℕ, Bool, true, false, ◌&&◌, ◌||◌, Option, none, some, List, [], ◌∷◌, ◌++◌, map, if◌then◌else◌,
  unwrap_or, map_option, and_then, is_some, Text, text, text_eq, text_is_eq, trim, split,
  strip_prefix, starts_with,
}
use volta_gateway.Prelude.Dict.{Dict, get, insert}
use volta_gateway.Gateway.Assertion.{GatewayAssertionSigner}
use volta_gateway.Gateway.Config.{PluginConfig}
use volta_gateway.Gateway.Plugins.{
  PluginState, loaded, validated, active, error, rejected, PluginContext, MonetizerBilling, Plugin,
  api_key_auth, rate_limit_by_user, monetizer, header_injector, insert_all, Ran, on_request,
  on_response,
}

pub record Entry : Type 0 where
  pub config : PluginConfig
  pub state : PluginState
  pub plugin : Plugin

abbrev pub PluginManager : Type 0
PluginManager = List Entry

unfoldable pub register : PluginConfig → Plugin → PluginManager → PluginManager
register config plugin manager =
    manager ++ record { config = config; state = active; plugin = plugin } ∷ []

unfoldable pub header_rules : Text → Dict Text Text → Dict Text Text → Dict Text Text
header_rules prefix [] rules = rules
header_rules prefix ((k, v) ∷ config) rules = elim (strip_prefix prefix k) [
  | none ↦ header_rules prefix config rules
  | some rest ↦ header_rules prefix config (insert rest v rules)
]

abbrev pub option_or : Text → Text → PluginConfig → Text
option_or default key c = unwrap_or default (get key c.config)

module _ (parse_u64 : Text → Option ℕ) where
  abbrev pub number_or : ℕ → Text → PluginConfig → ℕ
  number_or default key c = unwrap_or default (and_then (get key c.config) parse_u64)

  -- The plugin that a name stands for.
  unfoldable pub builtin : Option GatewayAssertionSigner → PluginConfig → Option Plugin
  builtin signer c =
      if text_eq c.name (text "api-key-auth")
      then some (
          api_key_auth (record {
            header = option_or (text "x-api-key") (text "header") c;
            valid_keys =
                unwrap_or []
                  (map_option (λ s. map trim (split b',' s)) (get (text "keys") c.config));
          }))
      else if text_eq c.name (text "rate-limit-by-user")
      then some (
          rate_limit_by_user (record {
            max_requests = number_or 100 (text "max_requests") c;
            window_secs = number_or 60 (text "window_secs") c;
            user_header = option_or (text "x-volta-user-id") (text "user_header") c;
            state = [];
          }))
      else if text_eq c.name (text "monetizer")
      then some (
          monetizer (record {
            verify_url =
                option_or (text "http://monetizer:3001/__monetizer/verify") (text "verify_url") c;
            config_id = option_or [] (text "config_id") c;
            cache_ttl_secs = number_or 5 (text "cache_ttl_secs") c;
            user_header = option_or (text "x-volta-user-id") (text "user_header") c;
            cache = [];
            assertion_signer = signer;
          }))
      else if text_eq c.name (text "header-injector")
      then some (
          header_injector (record {
            request_headers = header_rules (text "req.") c.config [];
            response_headers = header_rules (text "resp.") c.config [];
          }))
      else none

  -- `load_from_config_with_assertion`, from the manager that the entries so far have left.
  unfoldable pub load_each :
      Option GatewayAssertionSigner → List PluginConfig → PluginManager → PluginManager
  load_each signer [] manager = manager
  load_each signer (c ∷ configs) manager = elim (builtin signer c) [
    | none ↦ load_each signer configs manager
    | some plugin ↦ load_each signer configs (register c plugin manager)
  ]

  unfoldable pub load_from_config :
      Option GatewayAssertionSigner → List PluginConfig → PluginManager
  load_from_config signer configs = load_each signer configs []

abbrev pub is_active : PluginState → Bool
is_active active = true
is_active _ = false

-- An active plugin of this phase, or of both.
abbrev pub runs_in : Text → Entry → Bool
runs_in phase e =
    is_active e.state && (text_eq e.config.phase phase || text_eq e.config.phase (text "both"))

-- The manager, the context and the answer that cuts the request short.
pub record Served : Type 0 where
  pub manager : PluginManager
  pub ctx : PluginContext
  pub answer : Option (ℕ × Text)

module _ (fetch : Text → Option GatewayAssertionSigner → Option MonetizerBilling)
    (show_u64 : ℕ → Text) (now : ℕ) where
  -- One round of the loop: an error leaves a rejection where it is.
  unfoldable pub run_one : PluginContext → Entry → Ran
  run_one ctx e =
      if runs_in (text "request") e
      then on_request fetch show_u64 now e.plugin ctx
      else record { plugin = e.plugin; ctx = ctx; ok = false }

  unfoldable pub run_request : PluginManager → PluginContext → Served
  run_request [] ctx = record { manager = []; ctx = ctx; answer = none }
  run_request (e ∷ manager) ctx =
      let ran = run_one ctx e in
      let rest = run_request manager ran.ctx in
      let entry : Entry = record e { plugin = ran.plugin } in
      if ran.ok && is_some ran.ctx.reject
      then record {
        manager = entry ∷ manager;
        ctx = record (ran.ctx) { reject = none };
        answer = ran.ctx.reject;
      }
      else record { manager = entry ∷ rest.manager; ctx = rest.ctx; answer = rest.answer }

unfoldable pub run_response : PluginManager → PluginContext → PluginContext
run_response [] ctx = ctx
run_response (e ∷ manager) ctx =
    run_response manager (if runs_in (text "response") e then on_response e.plugin ctx else ctx)

-- `debug` is the form of a text under `{:?}`.
module _ (debug : Text → Text) where
  unfoldable pub debug_state : PluginState → Text
  debug_state loaded = text "Loaded"
  debug_state validated = text "Validated"
  debug_state active = text "Active"
  debug_state (error e) = text "Error(" ++ (debug e ++ text ")")
  debug_state (rejected e) = text "Rejected(" ++ (debug e ++ text ")")

  unfoldable pub states : PluginManager → List (Text × Text)
  states manager = map (λ e. (e.config.name, debug_state e.state)) manager

-- The headers of a request that a plugin sees: those of the client that are not of the gateway, and
-- those of the auth server. `to_str` reads a header value.
module _ (to_str : Text → Option Text) where
  unfoldable pub client_headers : List (Text × Text) → Dict Text Text → Dict Text Text
  client_headers [] m = m
  client_headers ((k, v) ∷ headers) m =
      if starts_with (text "x-volta-") k then client_headers headers m else elim (to_str v) [
        | none ↦ client_headers headers m
        | some s ↦ client_headers headers (insert k s m)
      ]

  unfoldable pub plugin_headers : List (Text × Text) → Dict Text Text → Dict Text Text
  plugin_headers headers volta_headers = insert_all volta_headers (client_headers headers [])
