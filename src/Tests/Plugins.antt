-- ===== src/Tests/Plugins.antt =====
-- The plugins on concrete requests.
use volta_gateway.Prelude.{
  ℕ, ◌≡◌, refl, true, Option, none, some, List, [], ◌∷◌, Text, text, text_eq, text_is_eq,
  strip_prefix, starts_with, split, split_from, trim, trim_end,
}
use volta_gateway.Prelude.Dict.{Dict, get, Nodup}
use volta_gateway.Gateway.Assertion.{GatewayAssertionSigner}
use volta_gateway.Gateway.Config.{PluginConfig}
use volta_gateway.Gateway.Plugins.{
  active, PluginContext, ApiKeyAuth, MonetizerBilling, api_key_auth, rate_limit_by_user, check_key,
  on_request,
}
use volta_gateway.Gateway.Plugins.Manager.{
  Entry, builtin, run_one, run_request, load_from_config, states, plugin_headers,
}
use volta_gateway.Gateway.Plugins.Laws.{plugin_headers-volta}
use volta_gateway.Gateway.Plugins.Loading.{expected_states, load_from_config-states}

abbrev show_nothing : ℕ → Text
show_nothing n = []

abbrev read_nothing : Text → Option ℕ
read_nothing t = none

abbrev no_billing : Text → Option GatewayAssertionSigner → Option MonetizerBilling
no_billing address signer = none

abbrev quoted : Text → Text
quoted t = t

abbrev plugin_config : Text → Dict Text Text → PluginConfig
plugin_config name config = record {
  name = name;
  plugin_type = text "native";
  path = none;
  config = config;
  phase = text "request";
}

abbrev keys : ApiKeyAuth
keys = record { header = text "x-api-key"; valid_keys = text "k1" ∷ [] }

abbrev keyed : Entry
keyed = record {
  config = plugin_config (text "api-key-auth") [];
  state = active;
  plugin = api_key_auth keys;
}

abbrev limited : Entry
limited = record {
  config = plugin_config (text "rate-limit-by-user") [];
  state = active;
  plugin = rate_limit_by_user (record {
    max_requests = 1;
    window_secs = 60;
    user_header = text "x-volta-user-id";
    state = [];
  });
}

abbrev asking : Dict Text Text → PluginContext
asking headers = record {
  method = text "GET";
  host = text "app";
  path = text "/";
  headers = headers;
  client_ip = text "10.0.0.1";
  reject = none;
  add_headers = [];
  remove_headers = [];
}

abbrev with_key : PluginContext
with_key = asking ((text "x-api-key", text "k1") ∷ (text "x-volta-user-id", text "u") ∷ [])

without_key :
    (run_request no_billing show_nothing 5 (keyed ∷ limited ∷ []) (asking [])).answer
    ≡ some (401, text "API key required")
unfolding run_request run_one on_request check_key get text_eq
without_key = refl

-- A setting of no keys is read as one empty key.
empty_key :
    builtin read_nothing none (plugin_config (text "api-key-auth") ((text "keys", []) ∷ []))
    ≡ some (api_key_auth (record { header = text "x-api-key"; valid_keys = [] ∷ [] }))
unfolding builtin get split split_from trim trim_end text_eq
empty_key = refl

abbrev same_text : Text → Option Text
same_text t = some t

abbrev forged : List (Text × Text)
forged = (text "x-volta-user-id", text "root") ∷ (text "accept", text "*") ∷ []

abbrev answered : Dict Text Text
answered = (text "x-volta-user-id", text "u") ∷ []

answered-Nodup : Nodup answered
answered-Nodup = (tt, tt)

user_id_name : starts_with (text "x-volta-") (text "x-volta-user-id") ≡ true
unfolding starts_with strip_prefix
user_id_name = refl

plugin_headers-volta_example :
    get (text "x-volta-user-id") (plugin_headers same_text forged answered)
    ≡ get (text "x-volta-user-id") answered
plugin_headers-volta_example =
    plugin_headers-volta same_text (text "x-volta-user-id") forged answered user_id_name
      answered-Nodup

load_from_config-states_example :
    states quoted (
      load_from_config read_nothing none
        (plugin_config (text "api-key-auth") [] ∷ plugin_config (text "apikey") [] ∷ []))
    ≡ expected_states
        (plugin_config (text "api-key-auth") [] ∷ plugin_config (text "apikey") [] ∷ [])
load_from_config-states_example =
    load_from_config-states read_nothing quoted none
      (plugin_config (text "api-key-auth") [] ∷ plugin_config (text "apikey") [] ∷ [])
