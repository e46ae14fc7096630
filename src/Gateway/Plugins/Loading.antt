-- ===== src/Gateway/Plugins/Loading.antt =====
-- Which plugins a list of configurations loads.
use volta_gateway.Prelude.{
  ℕ, ◌≡◌, refl, inl, inr, sym, ap, Bool, Option, List, [], ◌∷◌, ◌++◌, arith, any, if◌then◌else◌,
  is_some, Text, text, text_eq, text_eq_sym, append_nil, append_assoc, Option-cases,
}
use volta_gateway.Gateway.Assertion.{GatewayAssertionSigner}
use volta_gateway.Gateway.Config.{PluginConfig}
use volta_gateway.Gateway.Config.Checks.{builtin_plugins}
use volta_gateway.Gateway.Plugins.{Plugin}
use volta_gateway.Gateway.Plugins.Manager.{
  PluginManager, register, builtin, load_each, load_from_config, debug_state, states,
}

abbrev pub is_builtin : PluginConfig → Bool
is_builtin c = any (λ n. text_eq n c.name) builtin_plugins

-- The built-in plugins of a list, each with the state in which it is shown.
abbrev pub expected_states : List PluginConfig → List (Text × Text)
expected_states [] = []
expected_states (c ∷ configs) =
    let rest = expected_states configs in
    if is_builtin c then (c.name, text "Active") ∷ rest else rest

module _ (parse_u64 : Text → Option ℕ) (debug : Text → Text)
    (signer : Option GatewayAssertionSigner) where
  builtin-is_builtin : (c : PluginConfig) → is_some (builtin parse_u64 signer c) ≡ is_builtin c
  unfolding builtin
  builtin-is_builtin c = ground (
    arith,
    text_eq_sym c.name (text "api-key-auth"),
    text_eq_sym c.name (text "rate-limit-by-user"),
    text_eq_sym c.name (text "monetizer"),
    text_eq_sym c.name (text "header-injector"),
  )

  states-register :
      (c : PluginConfig) (p : Plugin) (manager : PluginManager)
      → states debug (register c p manager) ≡ states debug manager ++ (c.name, text "Active") ∷ []
  unfolding states register debug_state
  states-register c p [] = refl
  states-register c p (e ∷ manager) =
      ap (λ rest. (e.config.name, debug_state debug e.state) ∷ rest) (states-register c p manager)

  states-load_each :
      (configs : List PluginConfig) (manager : PluginManager)
      → states debug (load_each parse_u64 signer configs manager)
        ≡ states debug manager ++ expected_states configs
  unfolding load_each
  states-load_each [] manager = sym (append_nil (states debug manager))
  states-load_each (c ∷ configs) manager = elim (Option-cases (builtin parse_u64 signer c)) [
    | inl unknown ↦ ground (arith, states-load_each configs manager, builtin-is_builtin c)
    | inr (p, known) ↦ ground (
      arith,
      states-load_each configs (register c p manager),
      builtin-is_builtin c,
      states-register c p manager,
      append_assoc (states debug manager) ((c.name, text "Active") ∷ []) (expected_states configs),
    )
  ]

  -- Loading makes an active plugin of every entry with the name of a built-in plugin, in their order,
  -- and passes over the others.
  pub load_from_config-states :
      (configs : List PluginConfig)
      → states debug (load_from_config parse_u64 signer configs) ≡ expected_states configs
  unfolding load_from_config states
  load_from_config-states configs = states-load_each configs []
