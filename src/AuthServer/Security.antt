-- ===== src/AuthServer/Security.antt =====
-- Checks of addresses and texts: auth-server/src/security.rs. The parsing of a URL and of an address
-- are parameters. A header is the text of its first value, if that is ASCII. An octet is below 256
-- and a segment below 65536, so that a mask of leading bits is a division.
pub mod Laws
pub mod Ranges
pub mod Literal
use volta_gateway.Prelude.{
  ℕ, zero, suc, ◌+◌, ◌*◌, ◌/◌, Bool, true, false, not, ◌&&◌, ◌||◌, Option, none, some, List, [],
  ◌∷◌, ◌++◌, map, leb, ◌==◌, if◌then◌else◌, unwrap_or, and_then, Text, text, text_eq, text_is_eq,
  trim, to_lower, upper_byte, starts_with, ends_with_byte, strip_prefix,
}
use volta_gateway.Prelude.Dict.{Dict, get}
use volta_gateway.Gateway.Routing.{split_first}
use volta_gateway.Gateway.Cache.{contains_text}

-- `IpAddr`: the octets, or the segments.
pub record Segments : Type 0 where
  pub s0 : ℕ
  pub s1 : ℕ
  pub s2 : ℕ
  pub s3 : ℕ
  pub s4 : ℕ
  pub s5 : ℕ
  pub s6 : ℕ
  pub s7 : ℕ

pub data IpAddr : Type 0 where
  v4 : (a b c d : ℕ) → IpAddr
  v6 : Segments → IpAddr

-- The methods of `Ipv4Addr` and `Ipv6Addr`.
abbrev pub is_private : ℕ → ℕ → Bool
is_private a b = a == 10 || (a == 172 && b / 16 == 1) || (a == 192 && b == 168)

abbrev pub all_zero_before_last : Segments → Bool
all_zero_before_last s =
    s.s0 == 0 && s.s1 == 0 && s.s2 == 0 && s.s3 == 0 && s.s4 == 0 && s.s5 == 0 && s.s6 == 0

abbrev pub is_loopback : IpAddr → Bool
is_loopback (v4 a b c d) = a == 127
is_loopback (v6 s) = all_zero_before_last s && s.s7 == 1

unfoldable pub is_forbidden_ip : IpAddr → Bool
is_forbidden_ip (v4 a b c d) =
    a == 127
    || is_private a b
    || (a == 169 && b == 254)
    || (a == 255 && b == 255 && c == 255 && d == 255)
    || a / 16 == 14
    || (a == 0 && b == 0 && c == 0 && d == 0)
    || (a == 169 && b == 254 && c == 169 && d == 254)
    || (a == 100 && b / 64 == 1)
is_forbidden_ip (v6 s) =
    all_zero_before_last s && s.s7 == 1
    || s.s0 / 256 == 255
    || (all_zero_before_last s && s.s7 == 0)
    || s.s0 / 512 == 126
    || s.s0 / 64 == 1018

-- `str::strip_suffix` at one byte.
unfoldable pub strip_last : ℕ → Text → Option Text
strip_last b [] = none
strip_last b (c ∷ []) = if c == b then some [] else none
strip_last b (c ∷ d ∷ s) = and_then (strip_last b (d ∷ s)) (λ r. some (c ∷ r))

abbrev pub without_brackets : Text → Text
without_brackets host = unwrap_or host (and_then (strip_prefix (text "[") host) (strip_last b']'))

pub data UrlError : Type 0 where
  invalid_url no_host localhost : UrlError
  bad_scheme : Text → UrlError
  forbidden_ip : IpAddr → UrlError

-- A parsed URL: the scheme and the host.
abbrev pub Url : Type 0
Url = Text × Option Text

unfoldable pub check_host : (Text → Option IpAddr) → Text → Option UrlError
check_host parse_ip host =
    if text_eq (to_lower host) (text "localhost")
    then some localhost
    else elim (parse_ip (without_brackets host)) [
      | none ↦ none
      | some ip ↦ if is_forbidden_ip ip then some (forbidden_ip ip) else none
    ]

-- `none` is `Ok(())`.
unfoldable pub validate_webhook_url :
    (Text → Option Url) → (Text → Option IpAddr) → Text → (allow_http : Bool) → Option UrlError
validate_webhook_url parse_url parse_ip url_str allow_http = elim (parse_url url_str) [
  | none ↦ some invalid_url
  | some (scheme, host) ↦
      if text_eq scheme (text "https") || (text_eq scheme (text "http") && allow_http)
      then elim host [ none ↦ some no_host | some h ↦ check_host parse_ip h ]
      else some (bad_scheme scheme)
]

abbrev pub first_ip : (Text → Option IpAddr) → Option Text → Option IpAddr
first_ip parse_ip value = and_then value (λ v. parse_ip (trim (split_first b',' v)))

unfoldable pub is_localhost_request : (Text → Option IpAddr) → Dict Text Text → Bool
is_localhost_request parse_ip headers = elim (first_ip parse_ip (get (text "x-real-ip") headers)) [
  | some ip ↦ is_loopback ip
  | none ↦ elim (first_ip parse_ip (get (text "x-forwarded-for") headers)) [
    | some ip ↦ is_loopback ip
    | none ↦ true
  ]
]

pub data XmlError : Type 0 where
  doctype entity : XmlError

unfoldable pub reject_xml_doctype : Text → Option XmlError
reject_xml_doctype xml =
    let upper = map upper_byte xml in
    if contains_text (text "<!DOCTYPE") upper
    then some doctype
    else if contains_text (text "<!ENTITY") upper
    then some entity
    else none
