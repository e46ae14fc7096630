-- ===== src/AuthServer/Bypass/Laws.antt =====
-- Which requests count as local.
use volta_gateway.Prelude.{
  ◌≡◌, ◌↔◌, ◌⊎◌, refl, ap, subst, ◌∙◌, inl, inr, true, false, Option, none, some, List, [], ◌∷◌,
  ◌++◌, arith, ◌==◌, unwrap_or, map_option, contains_byte, trim, Text, text, text_is_eq, Bool-cases,
  Option-cases,
}
use volta_gateway.Prelude.Dict.{Dict, get}
use volta_gateway.Gateway.Routing.{split_first}
use volta_gateway.AuthServer.Bypass.{
  Net, LocalNetworkBypass, in_any, header_ip, client_ip, matches, matches_request,
}

-- The first of the items that commas separate.
abbrev pub IsFirstItem : (value item : Text) → Type 0
IsFirstItem value item =
    (contains_byte b',' item ≡ false)
    × ((value ≡ item) ⊎ ((rest : Text) × (value ≡ item ++ b',' ∷ rest)))

split_first-IsFirstItem : (value : Text) → IsFirstItem value (split_first b',' value)
unfolding split_first
split_first-IsFirstItem [] = (refl, inl refl)
split_first-IsFirstItem (c ∷ s) = elim (Bool-cases (c == b',')) [
  | inl comma ↦ (ground arith, inr (s, ground arith))
  | inr other ↦
      let (clean, whole) = split_first-IsFirstItem s in
      (
        ground arith,
        elim whole [ inl all_of ↦ inl (ground arith) | inr (rest, cut) ↦ inr (rest, ground arith) ],
      )
]

split_first-clean : (item : Text) → contains_byte b',' item ≡ false → split_first b',' item ≡ item
unfolding split_first
split_first-clean [] h = refl
split_first-clean (c ∷ s) h = ground (arith, split_first-clean s)

split_first-append :
    (item rest : Text)
    → contains_byte b',' item ≡ false
    → split_first b',' (item ++ b',' ∷ rest) ≡ item
unfolding split_first
split_first-append [] rest h = ground arith
split_first-append (c ∷ s) rest h = ground (arith, split_first-append s rest)

IsFirstItem-split_first :
    (value item : Text) → IsFirstItem value item → split_first b',' value ≡ item
IsFirstItem-split_first value item (clean, inl whole) =
    ap (split_first b',') whole ∙ split_first-clean item clean
IsFirstItem-split_first value item (clean, inr (rest, cut)) =
    ap (split_first b',') cut ∙ split_first-append item rest clean

module _ (n : Net) where
  open n use {IpAddr, IpNet, parse_ip}

  -- A header names an address: its first item is one, but for blanks around it.
  abbrev pub Names : Text → Dict Text Text → IpAddr → Type 0
  Names name headers ip =
      (value item : Text) × (get name headers ≡ some value)
      × IsFirstItem value item
      × (parse_ip (trim item) ≡ some ip)

  header_ip-Names :
      (name : Text) (headers : Dict Text Text) (ip : IpAddr)
      → (header_ip n name headers ≡ some ip) ↔ Names name headers ip
  header_ip-Names name headers ip = (
    λ h. elim (Option-cases (get name headers)) [
      | inl absent ↦ absurd (ground arith)
      | inr (value, found) ↦
          (value, split_first b',' value, found, split_first-IsFirstItem value, ground arith)
    ],
    λ (value, item, found, first, parsed).
        let same = IsFirstItem-split_first value item first in rw (found, same) parsed,
  )

  -- The address of the client: that of the peer, or if the peer is a trusted proxy, the one that
  -- x-real-ip names, or if it names none, the one that x-forwarded-for names, or if it names none
  -- either, that of the peer.
  abbrev pub IsClient : List IpNet → Dict Text Text → (peer ip : IpAddr) → Type 0
  IsClient trusted_proxies headers peer ip =
      ((in_any n trusted_proxies peer ≡ false) × (ip ≡ peer))
      ⊎ ((in_any n trusted_proxies peer ≡ true)
          × (Names (text "x-real-ip") headers ip
              ⊎ (¬ ((other : IpAddr) × Names (text "x-real-ip") headers other)
                  × (Names (text "x-forwarded-for") headers ip
                      ⊎ (¬ ((other : IpAddr) × Names (text "x-forwarded-for") headers other)
                          × (ip ≡ peer))))))

  not-Names :
      (name : Text) (headers : Dict Text Text)
      → header_ip n name headers ≡ none
      → ¬ ((other : IpAddr) × Names name headers other)
  not-Names name headers h (other, named) =
      let found = (header_ip-Names name headers other).1 named in ground arith

  header_ip-none :
      (name : Text) (headers : Dict Text Text)
      → ¬ ((other : IpAddr) × Names name headers other)
      → header_ip n name headers ≡ none
  header_ip-none name headers h = elim (Option-cases (header_ip n name headers)) [
    | inl missed ↦ missed
    | inr (other, found) ↦ absurd (h (other, (header_ip-Names name headers other).0 found))
  ]

  client_ip-IsClient :
      (trusted_proxies : List IpNet) (headers : Dict Text Text) (peer ip : IpAddr)
      → client_ip n headers (some peer) trusted_proxies ≡ some ip
      → IsClient trusted_proxies headers peer ip
  unfolding client_ip
  client_ip-IsClient trusted_proxies headers peer ip h =
      elim (Bool-cases (in_any n trusted_proxies peer)) [
        | inr direct ↦ inl (direct, ground arith)
        | inl trusted ↦ elim (Option-cases (header_ip n (text "x-real-ip") headers)) [
          | inr (real, named) ↦
              let at : header_ip n (text "x-real-ip") headers ≡ some ip = ground arith in
              inr (trusted, inl ((header_ip-Names (text "x-real-ip") headers ip).0 at))
          | inl no_real ↦ elim (Option-cases (header_ip n (text "x-forwarded-for") headers)) [
            | inr (forwarded, named) ↦
                let at : header_ip n (text "x-forwarded-for") headers ≡ some ip = ground arith in
                inr (
                  trusted,
                  inr (
                    not-Names (text "x-real-ip") headers no_real,
                    inl ((header_ip-Names (text "x-forwarded-for") headers ip).0 at),
                  ),
                )
            | inl no_forwarded ↦ inr (
              trusted,
              inr (
                not-Names (text "x-real-ip") headers no_real,
                inr (not-Names (text "x-forwarded-for") headers no_forwarded, ground arith),
              ),
            )
          ]
        ]
      ]

  IsClient-client_ip :
      (trusted_proxies : List IpNet) (headers : Dict Text Text) (peer ip : IpAddr)
      → IsClient trusted_proxies headers peer ip
      → client_ip n headers (some peer) trusted_proxies ≡ some ip
  unfolding client_ip
  IsClient-client_ip trusted_proxies headers peer ip (inl (direct, same)) = ground arith
  IsClient-client_ip trusted_proxies headers peer ip (inr (trusted, inl real)) =
      let named = (header_ip-Names (text "x-real-ip") headers ip).1 real in ground arith
  IsClient-client_ip trusted_proxies headers peer ip (inr (trusted, inr (no_real, inl forwarded))) =
      let missed = header_ip-none (text "x-real-ip") headers no_real in
      let named = (header_ip-Names (text "x-forwarded-for") headers ip).1 forwarded in ground arith
  IsClient-client_ip trusted_proxies headers peer ip
        (inr (trusted, inr (no_real, inr (no_forwarded, same)))) =
      let missed = header_ip-none (text "x-real-ip") headers no_real in
      let missed_too = header_ip-none (text "x-forwarded-for") headers no_forwarded in ground arith

  -- Without networks no address is in one.
  matches_request_lem :
      (b : LocalNetworkBypass n) (headers : Dict Text Text) (peer_ip : Option IpAddr)
      → matches_request n b headers peer_ip
        ≡ unwrap_or false
            (map_option (in_any n b.cidrs) (client_ip n headers peer_ip b.trusted_proxies))
  unfolding matches_request matches
  matches_request_lem b headers peer_ip = ground arith

  -- A request counts as local exactly if its peer is known and the address of the client is inside one of
  -- the local networks, where the headers x-real-ip and x-forwarded-for, in this order, say what that
  -- address is if the peer is a trusted proxy, and are ignored if it is any other peer.
  pub matches_request_iff :
      (b : LocalNetworkBypass n) (headers : Dict Text Text) (peer_ip : Option IpAddr)
      → (matches_request n b headers peer_ip ≡ true) ↔ (
          (peer ip : IpAddr) × (peer_ip ≡ some peer)
          × IsClient b.trusted_proxies headers peer ip
          × (in_any n b.cidrs ip ≡ true))
  matches_request_iff b headers none = (
    λ h. absurd (unfold matches_request client_ip in ground arith),
    λ (peer, ip, e, _, _). absurd (cc),
  )
  matches_request_iff b headers (some peer) =
      let same = matches_request_lem b headers (some peer) in
      (
        λ h. elim (Option-cases (client_ip n headers (some peer) b.trusted_proxies)) [
          | inl unknown ↦ absurd (ground arith)
          | inr (ip, found) ↦ (
            peer,
            ip,
            refl,
            client_ip-IsClient b.trusted_proxies headers peer ip found,
            ground arith,
          )
        ],
        λ (p, ip, e, client, local).
            let at : p ≡ peer = ground arith in
            let found =
              IsClient-client_ip b.trusted_proxies headers peer ip
                (subst (λ q. IsClient b.trusted_proxies headers q ip) at client) in
            ground arith,
      )
