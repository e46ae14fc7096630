-- ===== src/AuthServer/Security/Literal.antt =====
-- The text of the address in a host: what stands between the brackets, or the host.
use volta_gateway.Prelude.{
  ℕ, ◌≡◌, ◌⊎◌, refl, inl, inr, false, ◌&&◌, some, [], ◌∷◌, ◌++◌, arith, is_some, Text, text,
  strip_prefix, strip_prefix-append, append-strip_prefix, starts_with, ends_with_byte, Option-cases,
}
use volta_gateway.AuthServer.Security.{strip_last, without_brackets}

strip_last-append : (b : ℕ) (r : Text) → strip_last b (r ++ b ∷ []) ≡ some r
unfolding strip_last
strip_last-append b [] = ground arith
strip_last-append b (c ∷ []) = ground (arith, strip_last-append b [])
strip_last-append b (c ∷ d ∷ r) = ground (arith, strip_last-append b (d ∷ r))

append-strip_last : (b : ℕ) (s r : Text) → strip_last b s ≡ some r → s ≡ r ++ b ∷ []
unfolding strip_last
append-strip_last b [] r h = cc
append-strip_last b (c ∷ []) r h = ground arith
append-strip_last b (c ∷ d ∷ s) r h = elim (Option-cases (strip_last b (d ∷ s))) [
  | inl none_found ↦ absurd (ground arith)
  | inr (q, found) ↦
      let same : some (c ∷ q) ≡ some r = ground arith in
      let rest = append-strip_last b (d ∷ s) q found in ground arith
]

-- A text has a last byte to strip exactly if it ends with it.
is_some-strip_last : (b : ℕ) (s : Text) → is_some (strip_last b s) ≡ ends_with_byte b s
unfolding strip_last ends_with_byte
is_some-strip_last b [] = refl
is_some-strip_last b (c ∷ []) = ground arith
is_some-strip_last b (c ∷ d ∷ s) = ground (arith, is_some-strip_last b (d ∷ s))

abbrev pub IsLiteral : (host literal : Text) → Type 0
IsLiteral host literal =
    (host ≡ text "[" ++ (literal ++ text "]"))
    ⊎ ((literal ≡ host) × ((starts_with (text "[") host && ends_with_byte b']' host) ≡ false))

open_end : (s : Text) → ends_with_byte b']' (b'[' ∷ s) ≡ ends_with_byte b']' s
unfolding ends_with_byte
open_end [] = refl
open_end (c ∷ s) = refl

pub without_brackets-IsLiteral : (host : Text) → IsLiteral host (without_brackets host)
unfolding starts_with
without_brackets-IsLiteral host = elim (Option-cases (strip_prefix (text "[") host)) [
  | inl bare ↦ inr (ground arith, ground arith)
  | inr (rest, opened) ↦
      let shape = append-strip_prefix (text "[") host rest opened in
      elim (Option-cases (strip_last b']' rest)) [
        | inl unclosed ↦
            inr (ground arith, ground (arith, open_end rest, is_some-strip_last b']' rest))
        | inr (inner, closed) ↦
            let tail = append-strip_last b']' rest inner closed in inl (ground arith)
      ]
]

pub IsLiteral-without_brackets :
    (host literal : Text) → IsLiteral host literal → literal ≡ without_brackets host
unfolding starts_with
IsLiteral-without_brackets host literal (inl bracketed) =
    ground
      (arith, strip_prefix-append (text "[") (literal ++ text "]"), strip_last-append b']' literal)
IsLiteral-without_brackets host literal (inr (same, open_host)) =
    elim (Option-cases (strip_prefix (text "[") host)) [
      | inl bare ↦ ground arith
      | inr (rest, opened) ↦
          let shape = append-strip_prefix (text "[") host rest opened in
          ground (arith, open_end rest, is_some-strip_last b']' rest)
    ]
