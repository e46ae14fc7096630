-- ===== src/Gateway/Traversal.antt =====
-- The path-traversal test of gateway/src/flow.rs: `urlencoding_decode` and `hex_val`.
-- A string is its UTF-8 bytes. The decoder calls itself on its own result and has no bound in the
-- source, so the model recurs on fuel, and `none` means that the fuel ran out.
pub mod Dots
pub mod Termination
pub mod Divergence
use volta_gateway.Prelude.{
  ℕ, zero, suc, ◌+◌, ◌-◌, ◌*◌, ◌/◌, ◌%◌, Bool, true, false, not, ◌&&◌, ◌||◌, Option, none, some, [],
  ◌∷◌, ◌++◌, ltb, leb, ◌==◌, if◌then◌else◌, and_then, is_some, Text, text_eq, contains_byte,
}

unfoldable pub hex_val : ℕ → Option ℕ
hex_val b =
    if leb b'0' b && leb b b'9'
    then some (b - b'0')
    else if leb b'a' b && leb b b'f'
    then some (b - b'a' + 10)
    else if leb b'A' b && leb b b'F'
    then some (b - b'A' + 10)
    else none

-- `String::push(b as char)`: a byte becomes the code point of that number, one UTF-8 byte below 128
-- and two from there on.
unfoldable pub char_bytes : ℕ → Text
char_bytes b = if ltb b 128 then b ∷ [] else (192 + b / 64) ∷ (128 + b % 64) ∷ []

-- `%` and two hexadecimal digits.
unfoldable pub escape : ℕ → ℕ → ℕ → Option ℕ
escape b hi lo =
    if b == b'%'
    then and_then (hex_val hi) (λ h. and_then (hex_val lo) (λ l. some (h * 16 + l)))
    else none

-- The `while` loop. An escape is looked for only where two more bytes follow.
unfoldable pub decode_pass : Text → Text
decode_pass [] = []
decode_pass (b ∷ []) = char_bytes b
decode_pass (b ∷ hi ∷ []) = char_bytes b ++ decode_pass (hi ∷ [])
decode_pass (b ∷ hi ∷ lo ∷ s) = elim (escape b hi lo) [
  | some c ↦ char_bytes c ++ decode_pass s
  | none ↦ char_bytes b ++ decode_pass (hi ∷ lo ∷ s)
]

unfoldable pub urlencoding_decode : ℕ → Text → Option Text
urlencoding_decode zero input = none
urlencoding_decode (suc fuel) input =
    let result = decode_pass input in
    let again =
      and_then (urlencoding_decode fuel result)
        (λ second. if not (text_eq second result) then some second else some result) in
    if contains_byte b'%' result && not (text_eq result input) then again else some result

unfoldable pub starts_with_dot : Text → Bool
starts_with_dot [] = false
starts_with_dot (b ∷ _) = b == b'.'

-- `str::contains("..")`.
unfoldable pub contains_dots : Text → Bool
unfolding starts_with_dot
contains_dots [] = false
contains_dots (b ∷ s) = b == b'.' && starts_with_dot s || contains_dots s

-- What a reader who decodes `k` times sees.
unfoldable pub passes : ℕ → Text → Text
passes zero s = s
passes (suc k) s = passes k (decode_pass s)
