-- ===== src/Gateway/Traversal/Divergence.antt =====
-- Inputs on which the decoder calls itself without end.
use mathlib.Core.List.{append-nil}
use volta_gateway.Prelude.{
  ℕ, zero, suc, ◌+◌, ◌≤◌, ◌<◌, ◌/◌, ◌%◌, ◌≡◌, ◌≢◌, refl, sym, ap, ◌⊎◌, inl, inr, Bool, true, false,
  ◌||◌, none, [], ◌∷◌, ◌++◌, arith, ◌==◌, if◌then◌else◌, Bool-cases, Text, text_eq, eq_of_text_eq,
  contains_byte, is_some, leb, length, any,
}
use volta_gateway.Gateway.Traversal.{hex_val, char_bytes, escape, decode_pass, urlencoding_decode}

-- Some `%` with two hexadecimal digits behind it.
unfoldable pub has_escape : Text → Bool
has_escape [] = false
has_escape (b ∷ []) = false
has_escape (b ∷ hi ∷ []) = false
has_escape (b ∷ hi ∷ lo ∷ s) = is_some (escape b hi lo) || has_escape (hi ∷ lo ∷ s)

abbrev pub has_high_byte : Text → Bool
has_high_byte s = any (λ b. leb 128 b) s

-- A `%` that starts no escape, beside a byte outside ASCII.
pub record IsStuck (s : Text) : Type 0 where
  pub no_escape : has_escape s ≡ false
  pub percent : contains_byte b'%' s ≡ true
  pub high : has_high_byte s ≡ true

-- Each byte encoded again.
recode : Text → Text
recode [] = []
recode (b ∷ s) = char_bytes b ++ recode s

decode_pass-recode : (s : Text) → has_escape s ≡ false → decode_pass s ≡ recode s
unfolding decode_pass recode has_escape
decode_pass-recode [] h = refl
decode_pass-recode (b ∷ []) h = sym (append-nil _)
decode_pass-recode (b ∷ a ∷ []) h = rw append-nil
decode_pass-recode (b ∷ hi ∷ lo ∷ s) h =
    let plain : escape b hi lo ≡ none = ground arith in
    rw (plain, decode_pass) (rw (decode_pass-recode (hi ∷ lo ∷ s) (ground arith)))

-- A byte that is no `%` starts no escape.
has_escape-cons : (b : ℕ) (s : Text) → (b == b'%') ≡ false → has_escape (b ∷ s) ≡ has_escape s
unfolding has_escape escape
has_escape-cons b [] h = refl
has_escape-cons b (a ∷ []) h = refl
has_escape-cons b (hi ∷ lo ∷ s) h = ground arith

hex_val-high : (b : ℕ) → 128 ≤ b → hex_val b ≡ none
unfolding hex_val
hex_val-high b h = ground arith

escape-high : (b hi lo : ℕ) → (128 ≤ hi) ⊎ (128 ≤ lo) → escape b hi lo ≡ none
unfolding escape
escape-high b hi lo h = ground (arith, hex_val-high hi, hex_val-high lo)

has_escape-char_bytes :
    (b : ℕ) (s : Text)
    → has_escape (char_bytes b ++ s) ≡ (if b == b'%' then has_escape (b ∷ s) else has_escape s)
unfolding char_bytes
has_escape-char_bytes b s = ground (
  arith,
  has_escape-cons b s,
  has_escape-cons (128 + b % 64) s,
  has_escape-cons (192 + b / 64) ((128 + b % 64) ∷ s),
)

two_bytes : (b a : ℕ) → has_escape (b ∷ (char_bytes a ++ [])) ≡ false
unfolding char_bytes has_escape
two_bytes b a = ground (arith, escape-high b (192 + a / 64) (128 + a % 64))

three_bytes :
    (b hi lo : ℕ) (s : Text)
    → escape b hi lo ≡ none
    → has_escape (char_bytes hi ++ (char_bytes lo ++ s)) ≡ false
    → has_escape (b ∷ (char_bytes hi ++ (char_bytes lo ++ s))) ≡ false
unfolding char_bytes has_escape
three_bytes b hi lo s plain rest =
    ground (arith, escape-high b (192 + hi / 64) (128 + hi % 64), escape-high b hi (192 + lo / 64))

recode-no_escape : (s : Text) → has_escape s ≡ false → has_escape (recode s) ≡ false
unfolding recode has_escape
recode-no_escape [] h = refl
recode-no_escape (b ∷ []) h = ground (arith, has_escape-char_bytes b [])
recode-no_escape (b ∷ a ∷ []) h = ground (
  arith,
  has_escape-char_bytes b (char_bytes a ++ []),
  two_bytes b a,
  recode-no_escape (a ∷ []) refl,
)
recode-no_escape (b ∷ hi ∷ lo ∷ s) h = ground (
  arith,
  has_escape-char_bytes b (recode (hi ∷ lo ∷ s)),
  three_bytes b hi lo (recode s),
  recode-no_escape (hi ∷ lo ∷ s),
)

recode-grows :
    (s : Text)
    → (length s ≤ length (recode s))
      × (has_high_byte s ≡ true → length s < length (recode s))
      × (has_high_byte s ≡ true → has_high_byte (recode s) ≡ true)
      × (contains_byte b'%' (recode s) ≡ contains_byte b'%' s)
unfolding recode char_bytes
recode-grows [] = ground arith
recode-grows (b ∷ s) = ground (arith, recode-grows s)

decode_pass-IsStuck : {s : Text} → IsStuck s → IsStuck (decode_pass s) × (decode_pass s ≢ s)
decode_pass-IsStuck {s} h = rw (decode_pass-recode s h.no_escape) (
  record {
    no_escape = recode-no_escape s h.no_escape;
    percent = ground (arith, recode-grows s);
    high = ground (arith, recode-grows s);
  },
  λ e. omega (arith, ap length e, (recode-grows s).1 h.high),
)

-- If the first pass over the input leaves a percent sign, a byte outside ASCII and no escape, the
-- decoder never returns.
pub urlencoding_decode-IsStuck :
    (fuel : ℕ) (s : Text) → IsStuck (decode_pass s) → urlencoding_decode fuel s ≡ none
unfolding urlencoding_decode
urlencoding_decode-IsStuck zero s h = refl
urlencoding_decode-IsStuck (suc fuel) s h =
    let (next, grows) = decode_pass-IsStuck h in
    elim (Bool-cases (text_eq (decode_pass s) s)) [
      | inl same ↦ absurd (grows (ap decode_pass (eq_of_text_eq _ _ same)))
      | inr differs ↦
          rw (h.percent, differs, urlencoding_decode-IsStuck fuel (decode_pass s) next) refl
    ]
