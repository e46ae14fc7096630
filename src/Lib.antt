-- ===== src/Lib.antt =====
-- Volta gateway: a reverse proxy that asks an auth server about every request before it forwards it.
--
-- The program's parts. A request enters `ProxyService::handle` (gateway/src/proxy.rs). The rate
-- limiter counts it; the request flow (gateway/src/flow.rs, gateway/src/state.rs) validates it and
-- finds its route; the access decision looks at the path rules of the route (gateway/src/config.rs),
-- asks the auth server through its client (gateway/src/auth.rs), and enforces the required role with
-- the policy engine (auth-core/src/policy.rs); the circuit breaker (gateway/src/proxy.rs) says
-- whether the backend that was chosen may be called, and the response cache may answer in its place.
-- Plugins (gateway/src/plugin.rs) see a request after the access decision, and a signed assertion
-- (gateway/src/assertion.rs) tells a backend that a request came through the gateway. The routes
-- come from the configuration (gateway/src/config.rs), which is checked as a whole.
-- Administrators patch the configuration through an overlay (gateway/src/config_overlay.rs). The
-- auth server keeps its sessions in a store (auth-core/src/store/session.rs), judges the risk of a
-- login (auth-core/src/risk.rs), runs its dialogues as flows (auth-core/src/flow), and limits, pages
-- and guards its endpoints (auth-server/src).
--
-- The files.
--   Prelude            tests, lists, texts (lists of bytes) and association lists with their lemmas
--   Gateway.Traversal  `urlencoding_decode` and `hex_val` of gateway/src/flow.rs; Dots, Termination
--                      and Divergence hold what is proved of it
--   Gateway.Rules      `AuthRule` and `resolve_auth_rule` of gateway/src/config.rs
--   Gateway.Routing    routes, hosts and bypass prefixes of gateway/src/proxy.rs
--   Gateway.Flow       `RequestValidator`, `RoutingResolver` and the transitions of
--                      gateway/src/flow.rs, the states of gateway/src/state.rs
--   Gateway.Auth       the client of the auth server, gateway/src/auth.rs
--   Gateway.Access     the access decision of `ProxyService::handle`
--   Gateway.Limiter    `RateLimiter` of gateway/src/proxy.rs
--   Gateway.Breaker    `CircuitBreaker` of gateway/src/proxy.rs
--   Gateway.Cache      gateway/src/cache.rs; `lookup` is `ResponseCache::get`
--   Gateway.Selector   `BackendSelector` and `rand_sample` of gateway/src/proxy.rs
--   Gateway.Config     the checks of gateway/src/config.rs and its table of routes; Checks is
--                      `validate_detailed`, and Tables relates it to the access decision
--   Gateway.Plugins    gateway/src/plugin.rs; Manager is `PluginManager`, with the headers that
--                      `ProxyService::handle` gives to it
--   Gateway.Assertion  gateway/src/assertion.rs
--   Gateway.Admin      gateway/src/admin_auth.rs, the decisions of gateway/src/lifecycle.rs and their
--                      calls in gateway/src/main.rs
--   Gateway.Overlay    `ConfigStore`, the merge and the classification of
--                      gateway/src/config_overlay.rs
--   AuthCore.Policy    `PolicyEngine` of auth-core/src/policy.rs
--   AuthCore.Risk      auth-core/src/risk.rs
--   AuthCore.Sessions  auth-core/src/record/session.rs and the in-memory store of
--                      auth-core/src/store/session.rs; `find_session` is its `find`
--   AuthCore.Descriptor
--                      descriptions of flows and their validator, auth-core/src/flow/validate.rs, with
--                      `Edge` of auth-core/src/flow/mermaid.rs; Cycle and Validate are its searches
--                      and rules
--   AuthCore.Flows     the flow definitions of auth-core/src/flow, a module each: login_challenge.rs,
--                      mfa.rs, mfa_setup.rs, password_reset.rs, email_verification.rs,
--                      registration.rs, invite.rs, device_grant.rs, passkey.rs and oidc.rs
--   AuthServer.Limiter, AuthServer.Pagination
--                      auth-server/src/rate_limit.rs and auth-server/src/pagination.rs
--   AuthServer.Security, AuthServer.Bypass
--                      auth-server/src/security.rs and auth-server/src/local_bypass.rs;
--                      Security.Ranges has the forbidden ranges as numbers
--   AuthServer.FlowTables
--                      the tables of flows of auth-server/src/handlers/viz.rs and the diagrams of
--                      auth-core/src/flow/mermaid.rs
--   Tests              the definitions and the theorems on concrete inputs
--
-- State and operations. Each operation of a component is one function with the name that it has
-- in the source, one step from a state to a state: the source takes a lock for a whole operation,
-- but for `RateLimiter::allow` of the gateway, which takes one for its global window and then one
-- for those of the addresses, and is modelled as if no other call came between. A clock reading
-- is an argument. Maps are association lists, read by their first entry. `u32` and `u64` counters
-- wrap where the source adds to them.
--
-- Bounds and fuel. The path decoder recurses on its own result, so it runs on fuel. Without bytes
-- outside ASCII the length of the path plus one is enough; with such bytes no fuel may be enough,
-- and the validator's `diverged` result stands for the call that does not return. The search of a
-- flow's states takes one round for each edge and one more; the validator of flows takes one fuel
-- for each of its searches, and `diverged` if one of them uses it up. The search for a cycle takes
-- a round for each node and each edge, and one more.
--
-- Not modelled. HTTP, TLS, sockets, the database, cryptography and the flow engine are other
-- packages: where a definition depends on one it takes the answer as an argument (the exchange
-- with the auth server, the verification of a token, the containment of an address in a network,
-- the product of two `f64`, the reading of a configuration from JSON, of a network, a URI, a
-- number or a header value, the code of a message under a key, the billing service). JSON values
-- have the constructors of the package's `Value`. The overlay takes the checks of a configuration
-- as a parameter, since it reads the whole configuration and Gateway.Config the part that is
-- checked. The times to live of flows, and what the flow engine reads of a definition besides its
-- transitions, are left out, as are the other handlers of the auth server, logging and metrics.
pub mod Prelude
pub mod Gateway
pub mod AuthCore
pub mod AuthServer
pub mod Tests
