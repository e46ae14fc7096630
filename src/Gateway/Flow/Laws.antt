-- ===== src/Gateway/Flow/Laws.antt =====
-- What a request that the validator lets through has, and what routing then finds.
use volta_gateway.Prelude.{
  ℕ, suc, ◌≤◌, ◌≡◌, ◌≢◌, ◌↔◌, ◌∙◌, sym, inl, inr, Bool, true, false, some, List, [], arith, ltb,
  Bool-cases, Option-cases, any, Text, text_eq, text_eq_iff, text_is_eq, length,
}
use mathlib.Core.Bool.{false≢true}
use volta_gateway.Prelude.Dict.{Dict, get, contains_key}
use volta_gateway.Gateway.Routing.{RouteInfo, RoutingTable, find_route}
use volta_gateway.Gateway.Traversal.{urlencoding_decode, contains_dots, decode_pass, passes}
use volta_gateway.Gateway.Traversal.Dots.{urlencoding_decode-dots}
use volta_gateway.Gateway.Traversal.Termination.{is_ascii, urlencoding_decode-returns}
use volta_gateway.Gateway.Traversal.Divergence.{IsStuck, urlencoding_decode-IsStuck}
use volta_gateway.Gateway.Flow.{
  RequestData, ok, diverged, check_body, check_decoded, is_known_host, check_ip, validate_request,
  resolve_routing, target_of,
}

module _ {IpAddr IpNet : Type 0} (net_contains : IpNet → IpAddr → Bool)
    (ip_allowlists : Dict Text (List IpNet)) (routing : RoutingTable) (fuel : ℕ)
    (req : RequestData IpAddr) where
  pub record IsAdmissible : Type 0 where
    pub small_headers : req.header_size ≤ 8192
    pub small_body : (cl : ℕ) → req.content_length ≡ some cl → cl ≤ 10485760
    pub has_host : req.host ≢ []
    pub plain_path : (k : ℕ) → contains_dots (passes k req.path) ≡ false
    pub known_host : is_known_host routing req.host ≡ true
    pub allowed_ip :
        (nets : List IpNet) (ip : IpAddr)
        → get req.host ip_allowlists ≡ some nets
        → req.client_ip ≡ some ip
        → any (λ net. net_contains net ip) nets ≡ true

  -- The checks in the order of the code, as equations.
  record Passed : Type 0 where
    headers : ltb 8192 req.header_size ≡ false
    body : check_body req.content_length ≡ ok tt
    host : text_eq req.host [] ≡ false
    literal : contains_dots req.path ≡ false
    decoded : check_decoded (urlencoding_decode fuel req.path) ≡ ok tt
    known : is_known_host routing req.host ≡ true
    ip : check_ip net_contains (get req.host ip_allowlists) req.client_ip ≡ ok tt

  validate_request-Passed :
      validate_request net_contains fuel routing ip_allowlists req ≡ ok tt → Passed
  unfolding validate_request
  validate_request-Passed h = ground arith

  -- An accepted request is admissible: sizes and host are in order, the host is routed, the client
  -- is on the host's list if there is one, and no number of decodings of its path shows `..`.
  pub validate_request-IsAdmissible :
      validate_request net_contains fuel routing ip_allowlists req ≡ ok tt → IsAdmissible
  validate_request-IsAdmissible h =
      let p = validate_request-Passed h in
      record {
        small_headers = ground (arith, p.headers);
        small_body = λ cl e. unfold check_body in ground (arith, p.body, e);
        has_host = λ e. absurd (false≢true (sym p.host ∙ (text_eq_iff req.host []).1 e));
        plain_path = λ k. plain k p.decoded;
        known_host = p.known;
        allowed_ip = λ nets ip en ei. unfold check_ip in ground (arith, p.ip, en, ei);
      }
    where
      plain :
          (k : ℕ)
          → check_decoded (urlencoding_decode fuel req.path) ≡ ok tt
          → contains_dots (passes k req.path) ≡ false
      plain k decoded = elim (Option-cases (urlencoding_decode fuel req.path)) [
        | inl out ↦ absurd (unfold check_decoded in ground arith)
        | inr (r, found) ↦
            let clean : contains_dots r ≡ false = unfold check_decoded in ground arith in
            elim (Bool-cases (contains_dots (passes k req.path))) [
              | inl dots ↦
                  absurd
                    (false≢true (sym clean ∙ urlencoding_decode-dots fuel req.path r k found dots))
              | inr none_seen ↦ none_seen
            ]
      ]

-- The validator knows a host exactly when routing finds a route for it.
pub is_known_host-find_route :
    (routing : RoutingTable) (host : Text)
    → (is_known_host routing host ≡ true)
      ↔ ((route : RouteInfo) × (find_route routing host ≡ some route))
unfolding is_known_host find_route contains_key
is_known_host-find_route routing host = (
  λ h. elim (Option-cases (find_route routing host)) [
    | inl missed ↦ absurd (false≢true (ground arith))
    | inr found ↦ found
  ],
  λ (route, e). ground arith,
)

module _ {IpAddr IpNet : Type 0} (net_contains : IpNet → IpAddr → Bool)
    (ip_allowlists : Dict Text (List IpNet)) (routing : RoutingTable)
    (req : RequestData IpAddr) where
  -- A request that the validator accepts is never refused for want of a route: the resolver answers
  -- with the target of the host's route.
  pub validate_request-resolve_routing :
      (fuel : ℕ)
      → validate_request net_contains fuel routing ip_allowlists req ≡ ok tt
      → (route : RouteInfo) × (find_route routing req.host ≡ some route)
        × (resolve_routing routing req.host ≡ target_of route)
  unfolding resolve_routing
  validate_request-resolve_routing fuel h =
      let (route, found) =
        (is_known_host-find_route routing req.host).0
          (validate_request-IsAdmissible net_contains ip_allowlists routing fuel req
            h).known_host in
      (route, found, ground arith)

  -- The validator answers, with fuel for one call more than the path has bytes, if every pass over
  -- the path yields ASCII.
  pub validate_request-returns :
      ((k : ℕ) → is_ascii (passes k req.path) ≡ true)
      → validate_request net_contains (suc (length req.path)) routing ip_allowlists req ≢ diverged
  unfolding validate_request check_decoded check_body check_ip
  validate_request-returns h =
      let (r, found) =
        urlencoding_decode-returns (suc (length req.path)) req.path h (omega arith) in
      ground arith

  -- A request with sizes and host in order, whose path has no literal `..` but becomes stuck after
  -- one pass, is never answered, whatever the fuel.
  pub validate_request-diverges :
      (fuel : ℕ)
      → req.header_size ≤ 8192
      → check_body req.content_length ≡ ok tt
      → req.host ≢ []
      → contains_dots req.path ≡ false
      → IsStuck (decode_pass req.path)
      → validate_request net_contains fuel routing ip_allowlists req ≡ diverged
  unfolding validate_request check_decoded
  validate_request-diverges fuel headers body host literal stuck =
      let lost = urlencoding_decode-IsStuck fuel req.path stuck in
      ground (arith, (text_eq_iff req.host []).0)
