-- ===== src/AuthServer/Security/Ranges.antt =====
-- The forbidden ranges as numbers: an IPv4 address is a number of 32 bits, and an IPv6 address one of
-- 128 bits. Each range is written with its first and its last address.
use volta_gateway.Prelude.{
  ℕ, ◌+◌, ◌*◌, ◌/◌, ◌<◌, ◌≡◌, Bool, ◌&&◌, List, [], ◌∷◌, arith, any, leb, ◌==◌, ◌∙◌, ap,
}
use volta_gateway.AuthServer.Security.{
  IpAddr, v4, v6, Segments, is_forbidden_ip, all_zero_before_last,
}

abbrev pub Range : Type 0
Range = ℕ × ℕ

abbrev pub in_range : ℕ → Range → Bool
in_range n (first, last) = leb first n && leb n last

abbrev pub ip4 : (a b c d : ℕ) → ℕ
ip4 a b c d = ((a * 256 + b) * 256 + c) * 256 + d

-- Loopback, the three private networks, link-local with the address of cloud metadata, broadcast,
-- multicast, the unspecified address, and carrier-grade NAT.
abbrev pub ranges4 : List Range
ranges4 =
    (ip4 127 0 0 0, ip4 127 255 255 255)
    ∷ (ip4 10 0 0 0, ip4 10 255 255 255)
    ∷ (ip4 172 16 0 0, ip4 172 31 255 255)
    ∷ (ip4 192 168 0 0, ip4 192 168 255 255)
    ∷ (ip4 169 254 0 0, ip4 169 254 255 255)
    ∷ (ip4 255 255 255 255, ip4 255 255 255 255)
    ∷ (ip4 224 0 0 0, ip4 239 255 255 255)
    ∷ (ip4 0 0 0 0, ip4 0 0 0 0)
    ∷ (ip4 100 64 0 0, ip4 100 127 255 255)
    ∷ []

abbrev upper : Segments → ℕ
upper s =
    (((((s.s0 * 65536 + s.s1) * 65536 + s.s2) * 65536 + s.s3) * 65536 + s.s4) * 65536 + s.s5)
      * 65536
    + s.s6

abbrev pub ip6 : Segments → ℕ
ip6 s =
    ((((((s.s0 * 65536 + s.s1) * 65536 + s.s2) * 65536 + s.s3) * 65536 + s.s4) * 65536 + s.s5)
          * 65536
        + s.s6)
      * 65536
    + s.s7

-- The first and the last address whose first segment lies between two.
abbrev pub segments : (first last : ℕ) → Range
segments first last = (
  first * 0x1_0000_0000_0000_0000_0000_0000_0000,
  last * 0x1_0000_0000_0000_0000_0000_0000_0000 + 0xffff_ffff_ffff_ffff_ffff_ffff_ffff,
)

-- Loopback, multicast, the unspecified address, unique local and link-local addresses.
abbrev pub ranges6 : List Range
ranges6 =
    (1, 1) ∷ segments 0xff00 0xffff ∷ (0, 0) ∷ segments 0xfc00 0xfdff ∷ segments 0xfe80 0xfebf ∷ []

unfoldable pub is_reserved : IpAddr → Bool
is_reserved (v4 a b c d) = any (in_range (ip4 a b c d)) ranges4
is_reserved (v6 s) = any (in_range (ip6 s)) ranges6

-- Octets and segments have 8 and 16 bits.
abbrev pub IsAddress : IpAddr → Type 0
IsAddress (v4 a b c d) = (a < 256) × (b < 256) × (c < 256) × (d < 256)
IsAddress (v6 s) =
    (s.s0 < 65536)
    × (s.s1 < 65536)
    × (s.s2 < 65536)
    × (s.s3 < 65536)
    × (s.s4 < 65536)
    × (s.s5 < 65536)
    × (s.s6 < 65536)
    × (s.s7 < 65536)

module _ (a b c d : ℕ) (ha : a < 256) (hb : b < 256) (hc : c < 256) (hd : d < 256) where
  loopback4 : (a == 127) ≡ in_range (ip4 a b c d) (ip4 127 0 0 0, ip4 127 255 255 255)
  loopback4 = ground arith

  private8 : (a == 10) ≡ in_range (ip4 a b c d) (ip4 10 0 0 0, ip4 10 255 255 255)
  private8 = ground arith

  private12 :
      (a == 172 && b / 16 == 1) ≡ in_range (ip4 a b c d) (ip4 172 16 0 0, ip4 172 31 255 255)
  private12 = ground arith

  private16 : (a == 192 && b == 168) ≡ in_range (ip4 a b c d) (ip4 192 168 0 0, ip4 192 168 255 255)
  private16 = ground arith

  link_local4 :
      (a == 169 && b == 254) ≡ in_range (ip4 a b c d) (ip4 169 254 0 0, ip4 169 254 255 255)
  link_local4 = ground arith

  broadcast4 :
      (a == 255 && b == 255 && c == 255 && d == 255)
      ≡ in_range (ip4 a b c d) (ip4 255 255 255 255, ip4 255 255 255 255)
  broadcast4 = ground arith

  multicast4 : (a / 16 == 14) ≡ in_range (ip4 a b c d) (ip4 224 0 0 0, ip4 239 255 255 255)
  multicast4 = ground arith

  unspecified4 :
      (a == 0 && b == 0 && c == 0 && d == 0) ≡ in_range (ip4 a b c d) (ip4 0 0 0 0, ip4 0 0 0 0)
  unspecified4 = ground arith

  shared4 : (a == 100 && b / 64 == 1) ≡ in_range (ip4 a b c d) (ip4 100 64 0 0, ip4 100 127 255 255)
  shared4 = ground arith

  is_forbidden_ip-v4 : is_forbidden_ip (v4 a b c d) ≡ is_reserved (v4 a b c d)
  unfolding is_forbidden_ip is_reserved
  is_forbidden_ip-v4 =
      rw
        (
          ← loopback4,
          ← private8,
          ← private12,
          ← private16,
          ← link_local4,
          ← broadcast4,
          ← multicast4,
          ← unspecified4,
          ← shared4,
        )
        (ground arith)

last_lem :
    (u x k : ℕ) → k < 65536 → x < 65536 → (u == 0 && x == k) ≡ in_range (u * 65536 + x) (k, k)
last_lem u x k hk hx = ground arith

module _ (s : Segments) (h0 : s.s0 < 65536) (h1 : s.s1 < 65536) (h2 : s.s2 < 65536)
    (h3 : s.s3 < 65536) (h4 : s.s4 < 65536) (h5 : s.s5 < 65536) (h6 : s.s6 < 65536)
    (h7 : s.s7 < 65536) where
  zero_upper : all_zero_before_last s ≡ (upper s == 0)
  zero_upper = ground arith

  loopback6 : (all_zero_before_last s && s.s7 == 1) ≡ in_range (ip6 s) (1, 1)
  loopback6 = ap (λ z. z && s.s7 == 1) zero_upper ∙ last_lem (upper s) s.s7 1 (omega arith) h7

  multicast6 : (s.s0 / 256 == 255) ≡ in_range (ip6 s) (segments 0xff00 0xffff)
  multicast6 = ground arith

  unspecified6 : (all_zero_before_last s && s.s7 == 0) ≡ in_range (ip6 s) (0, 0)
  unspecified6 = ap (λ z. z && s.s7 == 0) zero_upper ∙ last_lem (upper s) s.s7 0 (omega arith) h7

  unique_local6 : (s.s0 / 512 == 126) ≡ in_range (ip6 s) (segments 0xfc00 0xfdff)
  unique_local6 = ground arith

  link_local6 : (s.s0 / 64 == 1018) ≡ in_range (ip6 s) (segments 0xfe80 0xfebf)
  link_local6 = ground arith

  is_forbidden_ip-v6 : is_forbidden_ip (v6 s) ≡ is_reserved (v6 s)
  unfolding is_forbidden_ip is_reserved
  is_forbidden_ip-v6 =
      rw (← loopback6, ← multicast6, ← unspecified6, ← unique_local6, ← link_local6) (ground arith)

-- The code's tests of octets, segments and their bits are those ranges.
pub is_forbidden_ip-is_reserved : (ip : IpAddr) → IsAddress ip → is_forbidden_ip ip ≡ is_reserved ip
unfolding is_forbidden_ip is_reserved
is_forbidden_ip-is_reserved (v4 a b c d) (ha, hb, hc, hd) = is_forbidden_ip-v4 a b c d ha hb hc hd
is_forbidden_ip-is_reserved (v6 s) (h0, h1, h2, h3, h4, h5, h6, h7) =
    is_forbidden_ip-v6 s h0 h1 h2 h3 h4 h5 h6 h7
