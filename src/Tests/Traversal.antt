-- ===== src/Tests/Traversal.antt =====
-- The decoder of gateway/src/flow.rs on request paths.
use volta_gateway.Prelude.{ℕ, zero, suc, ◌≡◌, refl, true, some, text, text_eq}
use volta_gateway.Gateway.Traversal.{
  hex_val, char_bytes, escape, decode_pass, urlencoding_decode, contains_dots, passes,
}
use volta_gateway.Gateway.Traversal.Dots.{urlencoding_decode-dots}
use volta_gateway.Gateway.Traversal.Termination.{is_ascii}
use volta_gateway.Gateway.Traversal.Divergence.{IsStuck, has_escape}

decoder : Unit {0}
unfolding urlencoding_decode decode_pass char_bytes escape hex_val contains_dots passes text_eq
    has_escape
decoder = tt

double_encoded : urlencoding_decode 3 (text "/a/%252e%252E/b") ≡ some (text "/a/../b")
unfolding decoder
double_encoded = refl

plain_percent : urlencoding_decode 2 (text "/100%") ≡ some (text "/100%")
unfolding decoder
plain_percent = refl

urlencoding_decode-dots_example : contains_dots (text "/a/../b") ≡ true
urlencoding_decode-dots_example =
    urlencoding_decode-dots 3 (text "/a/%252e%252E/b") (text "/a/../b") 2 double_encoded
      (unfold decoder in refl)

passes_of_ab : (k : ℕ) → passes k (text "ab") ≡ text "ab"
unfolding decoder
passes_of_ab zero = refl
passes_of_ab (suc k) = passes_of_ab k

encoded_is_ascii : (k : ℕ) → is_ascii (passes k (text "%61b")) ≡ true
unfolding passes
encoded_is_ascii zero = refl
encoded_is_ascii (suc k) = unfold decoder in rw (passes_of_ab k) refl

-- `%zz` starts no escape, and `%ff` decodes to a byte outside ASCII.
bad_path-IsStuck : IsStuck (decode_pass (text "/%zz%ff"))
unfolding decoder
bad_path-IsStuck = record { no_escape = refl; percent = refl; high = refl }
