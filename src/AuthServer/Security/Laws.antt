-- ===== src/AuthServer/Security/Laws.antt =====
-- Which addresses a webhook may name.
use volta_gateway.Prelude.{
  unwrap_or, map_option, ℕ, ◌+◌, ◌*◌, ◌≡◌, ◌≢◌, ◌⊎◌, ◌↔◌, refl, subst, ap, inl, inr, Bool, true,
  false, Option, none, some, arith, Text, text, text_eq, text_eq_iff, text_eq_refl, to_lower,
  Option-cases,
}
use volta_gateway.AuthServer.Security.{
  IpAddr, v6, is_forbidden_ip, without_brackets, Url, check_host, validate_webhook_url,
}
use volta_gateway.AuthServer.Security.Ranges.{is_reserved, IsAddress, is_forbidden_ip-is_reserved}
use volta_gateway.AuthServer.Security.Literal.{
  IsLiteral, without_brackets-IsLiteral, IsLiteral-without_brackets,
}

-- The IPv6 address `::ffff:a.b.c.d`, by which a dual-stack socket reaches `a.b.c.d`.
abbrev pub mapped : (a b c d : ℕ) → IpAddr
mapped a b c d = v6 (record {
  s0 = 0;
  s1 = 0;
  s2 = 0;
  s3 = 0;
  s4 = 0;
  s5 = 65535;
  s6 = a * 256 + b;
  s7 = c * 256 + d;
})

mapped-allowed : (a b c d : ℕ) → is_forbidden_ip (mapped a b c d) ≡ false
unfolding is_forbidden_ip
mapped-allowed a b c d = refl

-- A host that a webhook may name: it is not localhost in any case, and the address that it spells, if
-- it does, lies in none of the ranges.
abbrev pub IsPublicHost : (Text → Option IpAddr) → Text → Type 0
IsPublicHost parse_ip host =
    (to_lower host ≢ text "localhost")
    × ((literal : Text) × IsLiteral host literal
        × (unwrap_or false (map_option is_reserved (parse_ip literal)) ≡ false))

module _ (parse_ip : Text → Option IpAddr)
    (sound : (s : Text) (ip : IpAddr) → parse_ip s ≡ some ip → IsAddress ip) where
  forbidden-reserved :
      (literal : Text)
      → map_option is_forbidden_ip (parse_ip literal) ≡ map_option is_reserved (parse_ip literal)
  forbidden-reserved literal = elim (Option-cases (parse_ip literal)) [
    | inl other ↦ rw other refl
    | inr (ip, found) ↦ rw found (ap some (is_forbidden_ip-is_reserved ip (sound literal ip found)))
  ]

  check_host_iff : (host : Text) → (check_host parse_ip host ≡ none) ↔ IsPublicHost parse_ip host
  unfolding check_host
  check_host_iff host =
      let same = forbidden-reserved (without_brackets host) in
      let named = text_eq_iff (to_lower host) (text "localhost") in
      (
        λ h. (ground arith, (without_brackets host, without_brackets-IsLiteral host, ground arith)),
        λ (other, (literal, spelt, free)).
            let at : literal ≡ without_brackets host =
              IsLiteral-without_brackets host literal spelt in
            let here : unwrap_or false (map_option is_reserved (parse_ip (without_brackets host)))
                ≡ false =
              subst (λ l. unwrap_or false (map_option is_reserved (parse_ip l)) ≡ false) at free in
            ground arith,
      )

module _ (parse_url : Text → Option Url) (parse_ip : Text → Option IpAddr) where
  -- Where an address is read as octets below 256 or segments below 65536, a URL is accepted exactly if
  -- it parses, has the scheme `https`, or `http` where that is allowed, and a host that is not
  -- localhost in any case and does not spell, with or without brackets, an address in one of the
  -- ranges for loopback, private, link-local, broadcast, multicast, unspecified, shared and unique
  -- local addresses.
  pub validate_webhook_url_iff :
      (url_str : Text) (allow_http : Bool)
      → ((s : Text) (ip : IpAddr) → parse_ip s ≡ some ip → IsAddress ip)
      → (validate_webhook_url parse_url parse_ip url_str allow_http ≡ none) ↔ (
          (scheme host : Text) × (parse_url url_str ≡ some (scheme, some host))
          × ((scheme ≡ text "https") ⊎ ((scheme ≡ text "http") × (allow_http ≡ true)))
          × IsPublicHost parse_ip host)
  unfolding validate_webhook_url
  validate_webhook_url_iff url_str allow_http sound = (
    λ h. elim (Option-cases (parse_url url_str)) [
      | inl bad ↦ absurd (ground arith)
      | inr ((scheme, none), found) ↦ absurd (ground arith)
      | inr ((scheme, some host), found) ↦ (
        scheme,
        host,
        found,
        ground (arith, text_eq_iff scheme (text "https"), text_eq_iff scheme (text "http")),
        (check_host_iff parse_ip sound host).0 (ground arith),
      )
    ],
    λ (scheme, host, found, secure, free).
        let checked = (check_host_iff parse_ip sound host).1 free in
        ground (arith, text_eq_iff scheme (text "https"), text_eq_iff scheme (text "http")),
  )

  -- The IPv6 form of any IPv4 address passes, also of one in a forbidden range.
  pub validate_webhook_url-mapped :
      (url_str host : Text) (allow_http : Bool) (a b c d : ℕ)
      → parse_url url_str ≡ some (text "https", some host)
      → text_eq (to_lower host) (text "localhost") ≡ false
      → parse_ip (without_brackets host) ≡ some (mapped a b c d)
      → validate_webhook_url parse_url parse_ip url_str allow_http ≡ none
  unfolding validate_webhook_url check_host
  validate_webhook_url-mapped url_str host allow_http a b c d u l i =
      ground (arith, mapped-allowed a b c d, text_eq_refl (text "https"))
