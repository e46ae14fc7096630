-- ===== src/Gateway/Config/Checks.antt =====
-- `GatewayConfig::validate_detailed`: gateway/src/config.rs. Parsing a network and a URI are parameters.
use volta_gateway.Prelude.{
  ℕ, suc, Bool, false, not, ◌&&◌, ◌||◌, Option, none, some, List, [], ◌∷◌, ◌++◌, map, any, is_empty,
  length, ltb, ◌==◌, if◌then◌else◌, unwrap_or, map_option, is_some, report, report_each, report_all,
  Text, text, text_eq, upper_byte, trim, starts_with,
}
use volta_gateway.Gateway.Rules.{AuthRule, is_public, min_role}
use volta_gateway.Gateway.Assertion.{min_secret_len, is_key_id}
use volta_gateway.Gateway.Config.{
  RouteEntry, TlsConfig, L4ProxyEntry, PluginConfig, GatewayConfig, Env,
  effective_gateway_assertion_secret, effective_gateway_assertion_key_id,
  effective_gateway_assertion_previous, all_backends,
}

-- A constructor for each message. A number is the index of an entry of `l4_proxy`; of two texts the
-- first is the host.
pub data ConfigError : Type 0 where
  bad_version no_routing no_port : ConfigError
  duplicate_host : Text → ConfigError
  bad_cidr : (host cidr : Text) → ConfigError
  tls_no_domains tls_no_email tls_no_port https_without_tls : ConfigError
  l4_no_port l4_no_backend l4_bad_protocol : ℕ → ConfigError
  l4_bad_cidr : ℕ → Text → ConfigError
  no_backends cached_route public_min_role public_soft_auth soft_auth_min_role : Text → ConfigError
  bad_min_role bad_bypass_prefix bad_rule_prefix bad_rule_auth bad_rule_role :
      (host what : Text) → ConfigError
  short_secret bad_key_id key_id_without_secret : ConfigError
  previous_without_current short_previous_secret bad_previous_key_id same_key_ids
        unpaired_previous :
      ConfigError
  monetizer_without_secret : ConfigError
  unparsable_backend bad_backend_scheme : (host backend : Text) → ConfigError
  unknown_plugin : Text → ConfigError
  no_dns_provider no_dns_token : ConfigError

-- The code beside the message: `EXIT_BACKEND_URL`, `EXIT_UNKNOWN_PLUGIN`, `EXIT_TLS_CREDENTIALS`, and
-- `EXIT_SCHEMA` for all else.
unfoldable pub exit_code : ConfigError → ℕ
exit_code (unparsable_backend _ _) = 3
exit_code (bad_backend_scheme _ _) = 3
exit_code (unknown_plugin _) = 4
exit_code no_dns_provider = 5
exit_code no_dns_token = 5
exit_code _ = 1

abbrev pub role_names : List Text
role_names = text "OWNER" ∷ text "ADMIN" ∷ text "OPERATOR" ∷ text "MEMBER" ∷ text "VIEWER" ∷ []

unfoldable pub is_role : Text → Bool
is_role role = any (λ name. text_eq name (map upper_byte (trim role))) role_names

abbrev pub bad_prefix : Text → Bool
bad_prefix prefix = is_empty prefix || not (starts_with (text "/") prefix)

unfoldable pub duplicate_hosts : List Text → List RouteEntry → List ConfigError
duplicate_hosts seen [] = []
duplicate_hosts seen (r ∷ routes) =
    report (any (λ h. text_eq h r.host) seen) (duplicate_host r.host)
    ++ duplicate_hosts (r.host ∷ seen) routes

unfoldable pub tls_errors : Option TlsConfig → List ConfigError
tls_errors none = []
tls_errors (some tls) =
    report (is_empty tls.domains) tls_no_domains
    ++ (report (is_empty tls.contact_email) tls_no_email ++ report (tls.port == 0) tls_no_port)

abbrev cached : RouteEntry → Bool
cached r = unwrap_or false (map_option (λ c. c.enabled) r.cache)

unfoldable pub role_errors : RouteEntry → List ConfigError
role_errors r = elim r.min_role [
  | none ↦ []
  | some role ↦
      report (not (is_role role)) (bad_min_role r.host role)
      ++ report r.is_public (public_min_role r.host)
]

unfoldable pub rule_errors : Text → AuthRule → List ConfigError
rule_errors host rule =
    report (bad_prefix rule.prefix) (bad_rule_prefix host rule.prefix)
    ++ (report (not (is_public rule.auth || is_some (min_role rule.auth)))
          (bad_rule_auth host rule.prefix)
        ++ elim (min_role rule.auth) [
          | none ↦ []
          | some role ↦
              report (not (is_role role)) (bad_rule_role host (map upper_byte (trim role)))
        ])

unfoldable pub route_errors : RouteEntry → List ConfigError
route_errors r =
    report (is_empty (all_backends r)) (no_backends r.host)
    ++ (report (not r.is_public && cached r) (cached_route r.host)
        ++ (role_errors r
            ++ (report (r.is_public && r.soft_auth) (public_soft_auth r.host)
                ++ (report (r.soft_auth && is_some r.min_role) (soft_auth_min_role r.host)
                    ++ (report_each (λ b. bad_prefix b.prefix)
                          (λ b. bad_bypass_prefix r.host b.prefix) r.auth_bypass_paths
                        ++ report_all (rule_errors r.host) r.auth_rules)))))

-- The checks of the current and the previous key, and of the plugin that needs one.
unfoldable pub previous_errors : Option Text → Text → Option Text × Option Text → List ConfigError
previous_errors secret key_id (none, none) = []
previous_errors secret key_id (some _, none) = unpaired_previous ∷ []
previous_errors secret key_id (none, some _) = unpaired_previous ∷ []
previous_errors secret key_id (some previous_id, some previous) =
    report (not (is_some secret)) previous_without_current
    ++ (report (ltb (length previous) min_secret_len) short_previous_secret
        ++ (report (not (is_key_id previous_id)) bad_previous_key_id
            ++ report (text_eq previous_id key_id) same_key_ids))

unfoldable pub current_errors : Env → GatewayConfig → Option Text → Text → List ConfigError
current_errors env c none key_id =
    report (is_some c.auth.gateway_assertion_key_id || is_some env.assertion_key_id)
      key_id_without_secret
current_errors env c (some secret) key_id =
    report (ltb (length secret) min_secret_len) short_secret
    ++ report (not (is_key_id key_id)) bad_key_id

unfoldable pub assertion_errors : Env → GatewayConfig → List ConfigError
assertion_errors env c =
    let secret = effective_gateway_assertion_secret env c.auth in
    let key_id = effective_gateway_assertion_key_id env c.auth in
    current_errors env c secret key_id
    ++ (previous_errors secret key_id (effective_gateway_assertion_previous env c.auth)
        ++ report (any (λ p. text_eq p.name (text "monetizer")) c.plugins && not (is_some secret))
            monetizer_without_secret)

abbrev pub builtin_plugins : List Text
builtin_plugins =
    text "api-key-auth" ∷ text "rate-limit-by-user" ∷ text "monetizer" ∷ text "header-injector" ∷ []

abbrev is_unknown_plugin : PluginConfig → Bool
is_unknown_plugin p =
    text_eq p.plugin_type (text "native") && not (any (λ n. text_eq n p.name) builtin_plugins)

unfoldable pub credential_errors : Env → Option TlsConfig → List ConfigError
credential_errors env none = []
credential_errors env (some tls) =
    if text_eq tls.challenge (text "dns-01")
    then report (not (is_some tls.dns_provider)) no_dns_provider
      ++ report (not (is_some tls.dns_api_token) && not (is_some env.cf_dns_api_token)) no_dns_token
    else []

module _ (is_net is_uri : Text → Bool) where
  unfoldable pub allowlist_errors : RouteEntry → List ConfigError
  allowlist_errors r = report_each (λ cidr. not (is_net cidr)) (bad_cidr r.host) r.ip_allowlist

  unfoldable pub l4_errors : ℕ → List L4ProxyEntry → List ConfigError
  l4_errors i [] = []
  l4_errors i (entry ∷ entries) =
      report (entry.listen_port == 0) (l4_no_port i)
      ++ (report (is_empty entry.backend) (l4_no_backend i)
          ++ (report
                (not (text_eq entry.protocol (text "tcp"))
                  && not (text_eq entry.protocol (text "udp")))
                (l4_bad_protocol i)
              ++ (report_each (λ cidr. not (is_net cidr)) (l4_bad_cidr i) entry.ip_allowlist
                  ++ l4_errors (suc i) entries)))

  abbrev pub bad_scheme : Text → Bool
  bad_scheme b = not (starts_with (text "http://") b) && not (starts_with (text "https://") b)

  unfoldable pub backend_errors : Text → Text → List ConfigError
  backend_errors host b =
      if not (is_uri b)
      then unparsable_backend host b ∷ []
      else report (bad_scheme b) (bad_backend_scheme host b)

  unfoldable pub validate_detailed : Env → GatewayConfig → List ConfigError
  validate_detailed env c =
      report (not (c.config_version == 3)) bad_version
      ++ (report (is_empty c.routing) no_routing
          ++ (report (c.port == 0) no_port
              ++ (duplicate_hosts [] c.routing
                  ++ (report_all allowlist_errors c.routing
                      ++ (tls_errors c.tls
                          ++ (report (c.force_https && not (is_some c.tls)) https_without_tls
                              ++ (l4_errors 0 c.l4_proxy
                                  ++ (report_all route_errors c.routing
                                      ++ (assertion_errors env c
                                          ++ (report_all
                                                (λ r.
                                                  report_all (backend_errors r.host)
                                                    (all_backends r))
                                                c.routing
                                              ++ (report_each is_unknown_plugin
                                                    (λ p. unknown_plugin p.name) c.plugins
                                                  ++ credential_errors env c.tls)))))))))))
