-- ===== src/Gateway/Traversal/Termination.antt =====
-- When the decoder returns.
use volta_gateway.Prelude.{
  ℕ, zero, suc, ◌<◌, ◌≡◌, refl, ◌⊎◌, inl, inr, Bool, true, not, ◌&&◌, some, [], ◌∷◌, ◌++◌, arith,
  Bool-cases, Option-cases, Text, text_eq, text_eq_iff, contains_byte, ltb, length, all,
}
use volta_gateway.Gateway.Traversal.{char_bytes, escape, decode_pass, urlencoding_decode, passes}

-- Bytes below 128 only.
abbrev pub is_ascii : Text → Bool
is_ascii s = all (λ b. ltb b 128) s

is_ascii-char_bytes :
    (b : ℕ) (s : Text)
    → is_ascii (char_bytes b ++ s) ≡ true
    → (char_bytes b ≡ b ∷ []) × (is_ascii s ≡ true)
unfolding char_bytes
is_ascii-char_bytes b s h = ground arith

single_byte : (b : ℕ) → is_ascii (char_bytes b) ≡ true → char_bytes b ≡ b ∷ []
unfolding char_bytes
single_byte b h = ground arith

-- A pass whose result is ASCII leaves the text alone or makes it shorter.
decode_pass-shrinks :
    (s : Text)
    → is_ascii (decode_pass s) ≡ true
    → (decode_pass s ≡ s) ⊎ (length (decode_pass s) < length s)
unfolding decode_pass
decode_pass-shrinks [] h = inl refl
decode_pass-shrinks (b ∷ []) h = inl (single_byte b h)
decode_pass-shrinks (b ∷ a ∷ []) h =
    let (one, rest) = is_ascii-char_bytes b (decode_pass (a ∷ [])) h in
    ground (arith, decode_pass-shrinks (a ∷ []) rest)
decode_pass-shrinks (b ∷ hi ∷ lo ∷ s) h = elim (Option-cases (escape b hi lo)) [
  | inl plain ↦
      let (one, rest) =
        is_ascii-char_bytes b (decode_pass (hi ∷ lo ∷ s)) (rw (plain, decode_pass) at h) in
      rw (plain, decode_pass) (ground (arith, decode_pass-shrinks (hi ∷ lo ∷ s) rest))
  | inr (c, found) ↦
      let (one, rest) = is_ascii-char_bytes c (decode_pass s) (rw (found, decode_pass) at h) in
      rw (found, decode_pass) (ground (arith, decode_pass-shrinks s rest))
]

-- What a call returns once its recursive call has returned.
urlencoding_decode-after :
    (fuel : ℕ) (s second : Text)
    → urlencoding_decode fuel (decode_pass s) ≡ some second
    → (r : Text) × (urlencoding_decode (suc fuel) s ≡ some r)
unfolding urlencoding_decode
urlencoding_decode-after fuel s second h =
    elim (Bool-cases (contains_byte b'%' (decode_pass s) && not (text_eq (decode_pass s) s))) [
      | inl again ↦ elim (Bool-cases (text_eq second (decode_pass s))) [
        | inl same ↦ (decode_pass s, ground arith)
        | inr differs ↦ (second, ground arith)
      ]
      | inr done ↦ (decode_pass s, ground arith)
    ]

urlencoding_decode-fixed :
    (fuel : ℕ) (s : Text) → decode_pass s ≡ s → urlencoding_decode (suc fuel) s ≡ some s
unfolding urlencoding_decode
urlencoding_decode-fixed fuel s e =
    let same : text_eq (decode_pass s) s ≡ true = (text_eq_iff (decode_pass s) s).1 e in
    ground arith

-- The decoder returns within one call more than the input has bytes, if every pass yields ASCII.
pub urlencoding_decode-returns :
    (fuel : ℕ) (s : Text)
    → ((k : ℕ) → is_ascii (passes k s) ≡ true)
    → length s < fuel
    → (r : Text) × (urlencoding_decode fuel s ≡ some r)
urlencoding_decode-returns zero s h lt = absurd (omega arith)
urlencoding_decode-returns (suc fuel) s h lt = elim (decode_pass-shrinks s (unfold passes in h 1)) [
  | inl fixed ↦ (s, urlencoding_decode-fixed fuel s fixed)
  | inr shorter ↦
      let (second, found) =
        urlencoding_decode-returns fuel (decode_pass s) (λ k. unfold passes in h (suc k))
          (omega arith) in
      urlencoding_decode-after fuel s second found
]
