-- ===== src/Tests/Checks.antt =====
-- The validation of flows, the check of webhook addresses, and the bypass for local networks.
use volta_gateway.Prelude.{
  subst, inl, inr, Bool-cases, report_each, if◌then◌else◌, ◌≡◌, ◌⊎◌, ◌↔◌, refl, true, false, Option,
  none, some, [], ◌∷◌, List, arith, Text, text, text_eq, to_lower, strip_prefix,
}
use volta_gateway.Prelude.Dict.{Dict, get, insert}
use volta_gateway.AuthCore.Descriptor.{
  Edge, FlowDescriptor, contains, targets, bfs_loop, bfs_reachable, push_unseen,
}
use volta_gateway.AuthCore.Descriptor.Cycle
use volta_gateway.AuthCore.Descriptor.Reach.{Walk, bfs_reachable_iff}
use volta_gateway.AuthCore.Descriptor.Validate
use volta_gateway.AuthCore.Descriptor.Validate.{ok, validate, check_requires_produces}
use volta_gateway.AuthCore.Descriptor.Validate.Laws.{IsWellFormed, validate-IsWellFormed}
use volta_gateway.AuthServer.Security.{
  v4, is_forbidden_ip, without_brackets, Url, IpAddr, check_host, validate_webhook_url,
}
use volta_gateway.AuthServer.Security
use volta_gateway.AuthServer.Security.Laws.{
  mapped, IsPublicHost, validate_webhook_url_iff, validate_webhook_url-mapped,
}
use volta_gateway.AuthServer.Security.Ranges.{IsAddress}
use volta_gateway.AuthServer.Bypass.{Net, LocalNetworkBypass, in_any, matches_request}
use volta_gateway.AuthServer.Bypass.Laws.{IsClient, matches_request_iff}

abbrev edge : Text → Text → Edge
edge from to = record { from = from; to = to; label = [] }

abbrev mfa_steps : FlowDescriptor
mfa_steps = record {
  name = text "mfa";
  states = text "shown" ∷ text "verified" ∷ [];
  initial = text "shown";
  terminals = text "verified" ∷ [];
  edges = edge (text "shown") (text "verified") ∷ [];
  external_edges = edge (text "shown") (text "verified") ∷ [];
  processors = [];
  flow_data_aliases = (text "code", text "Code") ∷ [];
}

accepted : validate 4 mfa_steps ≡ ok
unfolding validate Validate.sanity_errors report_each Validate.edge_errors bfs_reachable bfs_loop
    push_unseen targets Validate.cycle_errors Validate.internal_edges Cycle.find_cycle
    Cycle.search_from Cycle.nodes_of Cycle.all_white Validate.contract_errors
    Validate.reachability_errors Validate.external_errors Validate.count_external
    Validate.alias_errors Validate.outgoing_errors text_eq get insert
accepted = refl

validate-IsWellFormed_example : IsWellFormed mfa_steps
validate-IsWellFormed_example = validate-IsWellFormed 4 mfa_steps accepted

bfs_reachable_iff_example :
    (out : List Text) × (bfs_reachable 2 mfa_steps ≡ some out)
    × ((v : Text) → (contains out v ≡ true) ↔ Walk mfa_steps.edges (text "shown") v)
bfs_reachable_iff_example = bfs_reachable_iff mfa_steps 2 (omega arith)

-- `d` requires what only one of the two ways to it produces; the other comes second and is skipped.
abbrev two_ways : FlowDescriptor
two_ways = record {
  name = text "two";
  states = text "a" ∷ text "b" ∷ text "c" ∷ text "d" ∷ [];
  initial = text "a";
  terminals = text "d" ∷ [];
  edges =
      edge (text "a") (text "c")
      ∷ edge (text "a") (text "b")
      ∷ edge (text "b") (text "d")
      ∷ edge (text "c") (text "d")
      ∷ [];
  external_edges = [];
  processors =
      record { state = text "b"; requires = []; produces = text "k" ∷ [] }
      ∷ record { state = text "d"; requires = text "k" ∷ []; produces = [] }
      ∷ [];
  flow_data_aliases = [];
}

gap_missed : check_requires_produces 5 two_ways ≡ some []
unfolding check_requires_produces Validate.proc_map Validate.contract_loop Validate.propagate
    Validate.check_state targets text_eq get insert
gap_missed = refl

-- Parsers that know one host and one address.
abbrev parse_url : Text → Option Url
parse_url url = some (text "https", some url)

abbrev parse_ip : Text → Option IpAddr
parse_ip host = if text_eq host (text "8.8.8.8") then some (v4 8 8 8 8) else some (mapped 127 0 0 1)

public_host : validate_webhook_url parse_url parse_ip (text "8.8.8.8") false ≡ none
unfolding validate_webhook_url check_host is_forbidden_ip text_eq to_lower strip_prefix
public_host = refl

v4-IsAddress : IsAddress (v4 8 8 8 8)
v4-IsAddress = ground arith

mapped-IsAddress : IsAddress (mapped 127 0 0 1)
mapped-IsAddress = ground arith

parse_ip-IsAddress : (s : Text) (ip : IpAddr) → parse_ip s ≡ some ip → IsAddress ip
parse_ip-IsAddress s ip h = elim (Bool-cases (text_eq s (text "8.8.8.8"))) [
  | inl known ↦ let same : v4 8 8 8 8 ≡ ip = ground arith in subst IsAddress same v4-IsAddress
  | inr other ↦
      let same : mapped 127 0 0 1 ≡ ip = ground arith in subst IsAddress same mapped-IsAddress
]

validate_webhook_url_iff_example :
    (validate_webhook_url parse_url parse_ip (text "8.8.8.8") false ≡ none) ↔ (
      (scheme host : Text) × (parse_url (text "8.8.8.8") ≡ some (scheme, some host))
      × ((scheme ≡ text "https") ⊎ ((scheme ≡ text "http") × (false ≡ true)))
      × IsPublicHost parse_ip host)
validate_webhook_url_iff_example =
    validate_webhook_url_iff parse_url parse_ip (text "8.8.8.8") false parse_ip-IsAddress

-- A private address, the local host by its name, and the bounds of a range.
private_host :
    validate_webhook_url parse_url (λ s. some (v4 172 31 255 255)) (text "172.31.255.255") false
    ≡ some (Security.forbidden_ip (v4 172 31 255 255))
unfolding validate_webhook_url check_host is_forbidden_ip text_eq to_lower strip_prefix
private_host = refl

local_name :
    validate_webhook_url parse_url parse_ip (text "LocalHost") false ≡ some Security.localhost
unfolding validate_webhook_url check_host text_eq to_lower
local_name = refl

not_localhost : text_eq (to_lower (text "[::ffff:7f00:1]")) (text "localhost") ≡ false
unfolding text_eq to_lower
not_localhost = refl

bracketed : parse_ip (without_brackets (text "[::ffff:7f00:1]")) ≡ some (mapped 127 0 0 1)
unfolding strip_prefix Security.strip_last text_eq
bracketed = refl

validate_webhook_url-mapped_example :
    validate_webhook_url parse_url parse_ip (text "[::ffff:7f00:1]") false ≡ none
validate_webhook_url-mapped_example =
    validate_webhook_url-mapped parse_url parse_ip (text "[::ffff:7f00:1]") (text "[::ffff:7f00:1]")
      false 127 0 0 1 refl not_localhost bracketed

-- Addresses as their texts, and networks of one address.
abbrev hosts : Net
hosts = record {
  IpAddr = Text;
  IpNet = Text;
  parse_ip = λ t. some t;
  parse_net = λ t. none;
  host_net = λ t. some t;
  net_contains = text_eq;
}

abbrev local_only : LocalNetworkBypass hosts
local_only = record { cidrs = text "10.0.0.7" ∷ []; trusted_proxies = text "10.0.0.1" ∷ [] }

abbrev proxied : Dict Text Text
proxied = (text "x-forwarded-for", text "10.0.0.7, 10.0.0.1") ∷ []

matches_request_iff_example :
    (matches_request hosts local_only proxied (some (text "10.0.0.1")) ≡ true) ↔ (
      (peer ip : Text) × (some (text "10.0.0.1") ≡ some peer)
      × IsClient hosts local_only.trusted_proxies proxied peer ip
      × (in_any hosts local_only.cidrs ip ≡ true))
matches_request_iff_example = matches_request_iff hosts local_only proxied (some (text "10.0.0.1"))
