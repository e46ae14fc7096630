-- ===== src/Gateway/Flow.antt =====
-- The request state machine of gateway/src/state.rs and gateway/src/flow.rs: the states, the
-- processors that run between them, and the transitions that `build_proxy_flow_with_allowlist`
-- declares. The engine that runs the definition (tramli) and IP networks (ipnet) are not part of
-- the repository: the first is left out, the second is a parameter.
pub mod Laws
pub mod Graph
use volta_gateway.Prelude.{
  ℕ, ◌≡◌, Bool, true, false, not, ◌||◌, Option, none, some, List, [], ◌∷◌, ◌++◌, ltb, if◌then◌else◌,
  any, is_some, and_then, unwrap_or, Text, text, text_eq, text_is_eq,
}
use volta_gateway.Prelude.Dict.{Dict, get, contains_key}
use volta_gateway.Gateway.Routing.{RouteInfo, RoutingTable, split_once, find_route}
use volta_gateway.Gateway.Traversal.{urlencoding_decode, contains_dots}

pub data ProxyState : Type 0 where
  received validated routed auth_checked forwarded completed : ProxyState
  bad_request redirect denied bad_gateway gateway_timeout : ProxyState

unfoldable pub is_terminal : ProxyState → Bool
is_terminal completed = true
is_terminal bad_request = true
is_terminal redirect = true
is_terminal denied = true
is_terminal bad_gateway = true
is_terminal gateway_timeout = true
is_terminal _ = false

unfoldable pub as_status_code : ProxyState → ℕ
as_status_code completed = 200
as_status_code bad_request = 400
as_status_code redirect = 302
as_status_code denied = 403
as_status_code bad_gateway = 502
as_status_code gateway_timeout = 504
as_status_code _ = 500

pub record RequestData (IpAddr : Type 0) : Type 0 where
  pub host : Text
  pub path : Text
  pub method : Text
  pub header_size : ℕ
  pub content_length : Option ℕ
  pub client_ip : Option IpAddr

pub record RouteTarget : Type 0 where
  pub backend_url : Text
  pub backends : List Text
  pub app_id : Option Text

-- `FlowError::new(code, message)`.
pub record FlowError : Type 0 where
  pub code : Text
  pub message : Text

-- `diverged`: the decoder did not return within its fuel.
pub data Result (A : Type 0) : Type 0 where
  ok : A → Result A
  err : FlowError → Result A
  diverged : Result A

infixl 5 ◌>>=◌ ◌>>◌
abbrev pub ◌>>=◌ : {A B : Type 0} → Result A → (A → Result B) → Result B
ok a >>= f = f a
err e >>= f = err e
diverged >>= f = diverged

abbrev pub ◌>>◌ : {B : Type 0} → Result (Unit {0}) → Result B → Result B
m >> k = m >>= λ _. k

abbrev pub bad : Text → FlowError
bad message = record { code = text "BAD_REQUEST"; message = message }

-- `if refused { return Err(..) }`.
abbrev pub reject_if : Bool → FlowError → Result (Unit {0})
reject_if true e = err e
reject_if false e = ok tt

unfoldable pub check_body : Option ℕ → Result (Unit {0})
check_body none = ok tt
check_body (some cl) = reject_if (ltb 10485760 cl) (bad (text "Body too large"))

unfoldable pub check_decoded : Option Text → Result (Unit {0})
check_decoded none = diverged
check_decoded (some decoded) =
    reject_if (contains_dots decoded) (bad (text "Invalid path (encoded traversal)"))

unfoldable pub is_known_host : RoutingTable → Text → Bool
is_known_host routing host =
    contains_key host routing
    || unwrap_or false
        (and_then (split_once b'.' host) (λ p. some (contains_key (text "*." ++ p.1) routing)))

module _ {IpAddr IpNet : Type 0} (net_contains : IpNet → IpAddr → Bool) where
  unfoldable pub check_ip : Option (List IpNet) → Option IpAddr → Result (Unit {0})
  check_ip (some allowlist) (some ip) =
      reject_if (not (any (λ net. net_contains net ip) allowlist))
        (record { code = text "DENIED"; message = text "IP not in allowlist" })
  check_ip _ _ = ok tt

  -- `RequestValidator::process`.
  unfoldable pub validate_request :
      (fuel : ℕ) → RoutingTable → Dict Text (List IpNet) → RequestData IpAddr → Result (Unit {0})
  validate_request fuel routing ip_allowlists req = do
    reject_if (ltb 8192 req.header_size) (bad (text "Headers too large"))
    check_body req.content_length
    reject_if (text_eq req.host []) (bad (text "Missing Host header"))
    reject_if (contains_dots req.path) (bad (text "Invalid path"))
    check_decoded (urlencoding_decode fuel req.path)
    reject_if (not (is_known_host routing req.host)) (bad (text "Unknown host"))
    check_ip (get req.host ip_allowlists) req.client_ip

unfoldable pub first_backend : List Text → Option Text
first_backend [] = none
first_backend (b ∷ _) = some b

unfoldable pub target_of : RouteInfo → Result RouteTarget
target_of route_info = elim (first_backend route_info.backends) [
  | none ↦ err (bad (text "No backends configured"))
  | some backend ↦
      ok (record {
        backend_url = backend;
        backends = route_info.backends;
        app_id = route_info.app_id;
      })
]

-- `RoutingResolver::process`.
unfoldable pub resolve_routing : RoutingTable → Text → Result RouteTarget
resolve_routing routing host = elim (find_route routing host) [
  | none ↦ err (bad (text "No route"))
  | some route_info ↦ target_of route_info
]

-- How a transition fires: by itself behind a processor, when data comes from outside and a guard
-- accepts it, on the error code `DENIED` of the step, or on any other error.
pub data Trigger : Type 0 where
  auto external step_error any_error : Trigger

-- The transitions that the builder is given, in its order. `on_any_error` leads from every state
-- that is not terminal.
pub data Transition : ProxyState → Trigger → ProxyState → Type 0 where
  request_validator : Transition received auto validated
  routing_resolver : Transition validated auto routed
  auth_guard : Transition routed external auth_checked
  forward_guard : Transition auth_checked external forwarded
  completion_processor : Transition forwarded auto completed
  ip_denied : Transition received step_error denied
  error : {s : ProxyState} → is_terminal s ≡ false → Transition s any_error bad_gateway
