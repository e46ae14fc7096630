-- ===== src/AuthServer/Bypass.antt =====
-- The bypass of the session check for local networks: auth-server/src/local_bypass.rs. Addresses and
-- networks, with their parsing, are parameters. A header is the text of its first value, if that is
-- ASCII. `auth_verify` (auth-server/src/handlers/auth.rs) asks `matches_request` only of a request
-- without a session cookie.
pub mod Laws
use volta_gateway.Prelude.{
  is_empty, Bool, true, false, Option, none, some, List, [], ◌∷◌, any, if◌then◌else◌, and_then,
  or_else, Text, text, text_eq, text_is_eq, trim, split,
}
use volta_gateway.Prelude.Dict.{Dict, get}
use volta_gateway.Gateway.Routing.{split_first}

-- `std::net::IpAddr` and `ipnet::IpNet`. `host_net` is the network of one address.
pub record Net : Type 1 where
  pub IpAddr : Type 0
  pub IpNet : Type 0
  pub parse_ip : Text → Option IpAddr
  pub parse_net : Text → Option IpNet
  pub host_net : IpAddr → Option IpNet
  pub net_contains : IpNet → IpAddr → Bool

module _ (n : Net) where
  open n use {IpAddr, IpNet, parse_ip, parse_net, host_net, net_contains}

  pub record LocalNetworkBypass : Type 0 where
    pub cidrs : List IpNet
    pub trusted_proxies : List IpNet

  -- One entry of the list: a network, or a bare address.
  unfoldable pub parse_entry : Text → Option IpNet
  parse_entry s = or_else (parse_net s) (and_then (parse_ip s) host_net)

  unfoldable pub parse_entries : List Text → List IpNet
  parse_entries [] = []
  parse_entries (raw ∷ raws) =
      let rest = parse_entries raws in
      if text_eq (trim raw) []
      then rest
      else elim (parse_entry (trim raw)) [ none ↦ rest | some net ↦ net ∷ rest ]

  unfoldable pub new : Text → LocalNetworkBypass
  new csv = record { cidrs = parse_entries (split b',' csv); trusted_proxies = [] }

  unfoldable pub with_trusted_proxies : Text → LocalNetworkBypass → LocalNetworkBypass
  with_trusted_proxies csv b = record b { trusted_proxies = (new csv).cidrs }

  -- `from_env` for the two variables, empty if they are not set.
  unfoldable pub from_env : (cidrs trusted : Text) → LocalNetworkBypass
  from_env cidrs trusted = with_trusted_proxies trusted (new cidrs)

  abbrev pub in_any : List IpNet → IpAddr → Bool
  in_any nets ip = any (λ net. net_contains net ip) nets

  unfoldable pub matches : LocalNetworkBypass → IpAddr → Bool
  matches b ip = in_any b.cidrs ip

  -- The address that a header names first.
  abbrev pub header_ip : Text → Dict Text Text → Option IpAddr
  header_ip name headers =
      and_then (get name headers) (λ value. parse_ip (trim (split_first b',' value)))

  abbrev pub forwarded_ip : Dict Text Text → Option IpAddr
  forwarded_ip headers =
      or_else (header_ip (text "x-real-ip") headers) (header_ip (text "x-forwarded-for") headers)

  unfoldable pub client_ip : Dict Text Text → Option IpAddr → List IpNet → Option IpAddr
  client_ip headers none trusted_proxies = none
  client_ip headers (some peer) trusted_proxies =
      if in_any trusted_proxies peer then or_else (forwarded_ip headers) (some peer) else some peer

  unfoldable pub matches_request : LocalNetworkBypass → Dict Text Text → Option IpAddr → Bool
  matches_request b headers peer_ip =
      if is_empty b.cidrs then false else elim (client_ip headers peer_ip b.trusted_proxies) [
        | none ↦ false
        | some ip ↦ matches b ip
      ]
