-- ===== src/Gateway/Traversal/Dots.antt =====
-- Decoding never hides `..`: what any number of passes uncovers, the decoder's result shows.
use mathlib.Core.List.{append-nil}
use mathlib.Core.Path.{subst}
use volta_gateway.Prelude.{
  ℕ, zero, suc, ◌≡◌, refl, ◌∙◌, sym, ap, ◌⊎◌, inl, inr, true, false, ◌&&◌, ◌||◌, none, some, [],
  ◌∷◌, ◌++◌, arith, ◌==◌, Option-cases, Text, eq_of_text_eq, contains_byte,
}
use volta_gateway.Gateway.Traversal.{
  hex_val, char_bytes, escape, decode_pass, urlencoding_decode, starts_with_dot, contains_dots,
  passes,
}

contains_dots-append : (s t : Text) → contains_dots t ≡ true → contains_dots (s ++ t) ≡ true
unfolding contains_dots
contains_dots-append [] t h = h
contains_dots-append (b ∷ s) t h = ground (arith, contains_dots-append s t h)

-- No byte of an escape is a dot.
escape-no_dot :
    (b hi lo c : ℕ)
    → escape b hi lo ≡ some c
    → ((b == b'.') ≡ false) × ((hi == b'.') ≡ false) × ((lo == b'.') ≡ false)
unfolding escape hex_val
escape-no_dot b hi lo c h = ground arith

plain_byte : (b hi lo : ℕ) → (b == b'%') ≡ false → escape b hi lo ≡ none
unfolding escape
plain_byte b hi lo h = rw h

decode_pass-dot : (s : Text) → decode_pass (b'.' ∷ s) ≡ b'.' ∷ decode_pass s
unfolding decode_pass char_bytes escape
decode_pass-dot [] = refl
decode_pass-dot (a ∷ []) = refl
decode_pass-dot (a ∷ b ∷ s) = refl

starts_with_dot-pass :
    (s : Text) → starts_with_dot s ≡ true → starts_with_dot (decode_pass s) ≡ true
unfolding starts_with_dot
starts_with_dot-pass [] h = cc
starts_with_dot-pass (b ∷ s) h = let e : b ≡ b'.' = ground arith in rw (e, decode_pass-dot s) refl

-- A byte that starts no escape is followed by the decoding of the rest.
step-dots :
    (b : ℕ) (s : Text)
    → contains_dots (b ∷ s) ≡ true
    → (contains_dots s ≡ true → contains_dots (decode_pass s) ≡ true)
    → contains_dots (char_bytes b ++ decode_pass s) ≡ true
unfolding contains_dots char_bytes
step-dots b s h rest = ground (arith, rest, starts_with_dot-pass s)

single : (b : ℕ) → ¬ (contains_dots (b ∷ []) ≡ true)
unfolding contains_dots
single b h = ground arith

pub decode_pass-dots : (s : Text) → contains_dots s ≡ true → contains_dots (decode_pass s) ≡ true
unfolding decode_pass
decode_pass-dots [] h = h
decode_pass-dots (b ∷ []) h = absurd (single b h)
decode_pass-dots (b ∷ a ∷ []) h = step-dots b (a ∷ []) h (decode_pass-dots (a ∷ []))
decode_pass-dots (b ∷ hi ∷ lo ∷ s) h = elim (Option-cases (escape b hi lo)) [
  | inl plain ↦
      rw (plain, decode_pass) (step-dots b (hi ∷ lo ∷ s) h (decode_pass-dots (hi ∷ lo ∷ s)))
  | inr (c, found) ↦
      let (x, y, z) = escape-no_dot b hi lo c found in
      rw (found, decode_pass)
        (contains_dots-append (char_bytes c) (decode_pass s)
          (decode_pass-dots s (unfold contains_dots in ground arith)))
]

-- Without `%` a pass only re-encodes, so it neither adds nor removes `%` or `..`.
decode_pass-cons :
    (b : ℕ) (s : Text) → (b == b'%') ≡ false → decode_pass (b ∷ s) ≡ char_bytes b ++ decode_pass s
unfolding decode_pass
decode_pass-cons b [] h = sym (append-nil _)
decode_pass-cons b (a ∷ []) h = refl
decode_pass-cons b (hi ∷ lo ∷ s) h = rw (plain_byte b hi lo h, decode_pass) refl

contains_dots-char_bytes :
    (b : ℕ) (s : Text)
    → contains_dots (char_bytes b ++ s) ≡ (b == b'.' && starts_with_dot s || contains_dots s)
unfolding char_bytes contains_dots
contains_dots-char_bytes b s = ground arith

pub contains_byte-char_bytes :
    (b : ℕ) (s : Text)
    → contains_byte b'%' (char_bytes b ++ s) ≡ (b == b'%' || contains_byte b'%' s)
unfolding char_bytes
contains_byte-char_bytes b s = ground arith

starts_with_dot-char_bytes : (b : ℕ) (s : Text) → starts_with_dot (char_bytes b ++ s) ≡ b == b'.'
unfolding char_bytes starts_with_dot
starts_with_dot-char_bytes b s = ground arith

starts_with_dot-plain :
    (s : Text) → contains_byte b'%' s ≡ false → starts_with_dot (decode_pass s) ≡ starts_with_dot s
unfolding starts_with_dot
starts_with_dot-plain [] h = unfold decode_pass in refl
starts_with_dot-plain (b ∷ s) h =
    rw (decode_pass-cons b s (ground arith)) (starts_with_dot-char_bytes b (decode_pass s))

plain-decode_pass :
    (s : Text)
    → contains_byte b'%' s ≡ false
    → (contains_byte b'%' (decode_pass s) ≡ false)
      × (contains_dots (decode_pass s) ≡ contains_dots s)
unfolding contains_dots
plain-decode_pass [] h = unfold decode_pass in (refl, refl)
plain-decode_pass (b ∷ s) h =
    let (none_left, same) = plain-decode_pass s (ground arith) in
    rw (decode_pass-cons b s (ground arith)) (
      ground (arith, contains_byte-char_bytes b (decode_pass s)),
      ground (arith, contains_dots-char_bytes b (decode_pass s), starts_with_dot-plain s),
    )

passes-plain :
    (k : ℕ) (s : Text) → contains_byte b'%' s ≡ false → contains_dots (passes k s) ≡ contains_dots s
unfolding passes
passes-plain zero s h = refl
passes-plain (suc k) s h =
    let (none_left, same) = plain-decode_pass s h in passes-plain k (decode_pass s) none_left ∙ same

passes-fixed : (k : ℕ) (s : Text) → decode_pass s ≡ s → passes k s ≡ s
unfolding passes
passes-fixed zero s h = refl
passes-fixed (suc k) s h = rw h (passes-fixed k s h)

-- The two ways in which the decoder returns.
urlencoding_decode-cases :
    (fuel : ℕ) (s r : Text)
    → urlencoding_decode (suc fuel) s ≡ some r
    → (urlencoding_decode fuel (decode_pass s) ≡ some r)
      ⊎ ((r ≡ decode_pass s) × ((contains_byte b'%' r ≡ false) ⊎ (r ≡ s)))
unfolding urlencoding_decode
urlencoding_decode-cases fuel s r h =
    elim (Option-cases (urlencoding_decode fuel (decode_pass s))) [
      | inl out ↦ ground (arith, eq_of_text_eq (decode_pass s) s)
      | inr (second, found) ↦
          ground (arith, eq_of_text_eq (decode_pass s) s, eq_of_text_eq second (decode_pass s))
    ]

-- If the decoder returns, no number of passes over the input uncovers a `..` that the result hides.
pub urlencoding_decode-dots :
    (fuel : ℕ) (s r : Text) (k : ℕ)
    → urlencoding_decode fuel s ≡ some r
    → contains_dots (passes k s) ≡ true
    → contains_dots r ≡ true
unfolding passes
urlencoding_decode-dots zero s r k h d = unfold urlencoding_decode in cc
urlencoding_decode-dots (suc fuel) s r zero h d = elim (urlencoding_decode-cases fuel s r h) [
  | inl deeper ↦ urlencoding_decode-dots fuel (decode_pass s) r zero deeper (decode_pass-dots s d)
  | inr (e, _) ↦ rw e (decode_pass-dots s d)
]
urlencoding_decode-dots (suc fuel) s r (suc k) h d = elim (urlencoding_decode-cases fuel s r h) [
  | inl deeper ↦ urlencoding_decode-dots fuel (decode_pass s) r k deeper d
  | inr (e, inl plain) ↦
      sym (passes-plain k r plain) ∙ subst (λ t. contains_dots (passes k t) ≡ true) (sym e) d
  | inr (e, inr same) ↦
      let fixed : decode_pass r ≡ r = ap decode_pass same ∙ sym e in
      subst (λ t. contains_dots t ≡ true) (passes-fixed k r fixed)
        (subst (λ t. contains_dots (passes k t) ≡ true) (sym e) d)
]
