-- ===== src/Tests/Assertion.antt =====
-- Assertions that are signed and verified with a code that appends the message to the key.
use volta_gateway.Prelude.{
  ◌++◌, ℕ, ◌≡◌, ◌≢◌, ◌≤◌, refl, Option, none, some, [], ◌∷◌, map, arith, inr, Text, text, text_eq,
  text_eq_iff, strip_prefix, upper_byte,
}
use volta_gateway.AuthCore.Policy.{join}
use volta_gateway.Gateway.Assertion.{
  Codec, GatewayAssertionSigner, GatewayAssertionVerifier, Request, is_key_id, new_with_key_id,
  rejected, short_secret, new_verifier, canonical, invalid_signature, outside_window, abs_diff,
  sign_at, check_signature, select_signer, verify_at,
}
use volta_gateway.Gateway.Assertion.Canonical.{HasLines, canonical_inj}
use volta_gateway.Gateway.Assertion.Laws.{Knows, verify_at-sign_at, verify_at_lem}

abbrev read_number : Text → Option ℕ
read_number [] = none
read_number (n ∷ t) = some n

abbrev plain : Codec
plain = record {
  show_u64 = λ n. n ∷ [];
  parse_u64 = read_number;
  hex_encode = λ t. t;
  hex_decode = λ t. some t;
  hmac = λ key message. key ++ message;
}

abbrev old : GatewayAssertionSigner
old = record { key_id = text "old"; secret = text "s1" }

abbrev new : GatewayAssertionSigner
new = record { key_id = text "new"; secret = text "s2" }

abbrev rotating : GatewayAssertionVerifier
rotating = record { current = new; previous = some old }

abbrev read_orders : Request
read_orders = record {
  method = text "get";
  path_with_query = text "/orders";
  user_id = text "u";
  tenant_id = text "t";
  roles = text "MEMBER";
}

secret_too_short : new_with_key_id (text "old") (text "s1") ≡ rejected short_secret
unfolding new_with_key_id is_key_id
secret_too_short = refl

one_identifier : new_verifier new (some new) ≡ none
unfolding new_verifier text_eq
one_identifier = refl

-- Another path than the one that was signed.
other_path :
    verify_at plain rotating
      (some (text "new"))
      (99 ∷ [])
      (sign_at plain new 99 read_orders).signature
      100
      5
      (record read_orders { path_with_query = text "/users" })
    ≡ some invalid_signature
unfolding verify_at sign_at check_signature select_signer canonical join text_eq strip_prefix
other_path = refl

too_late :
    verify_at plain rotating
      (some (text "new"))
      (99 ∷ [])
      (sign_at plain new 99 read_orders).signature
      105
      5
      read_orders
    ≡ some outside_window
unfolding verify_at
too_late = refl

rotated : old.key_id ≢ new.key_id
unfolding text_eq
rotated = ground (arith, text_eq_iff old.key_id new.key_id)

near : abs_diff 97 99 ≤ 5
near = omega arith

verify_at-sign_at_example :
    verify_at plain rotating
      (some (sign_at plain old 99 read_orders).key_id)
      (sign_at plain old 99 read_orders).timestamp
      (sign_at plain old 99 read_orders).signature
      97
      5
      read_orders
    ≡ none
verify_at-sign_at_example =
    verify_at-sign_at plain rotating old 99 97 5 read_orders (inr (refl, rotated)) near refl
      (λ bytes. refl)

accepted :
    verify_at plain rotating
      (some (text "old"))
      (99 ∷ [])
      (text "v1=" ++ text "s1" ++ canonical (99 ∷ []) read_orders)
      97
      5
      read_orders
    ≡ none
unfolding verify_at check_signature select_signer canonical join text_eq strip_prefix
accepted = refl

verify_at_lem_example :
    (s : GatewayAssertionSigner) × (t : ℕ) × (encoded : Text) × Knows rotating s
    × (plain.parse_u64 (99 ∷ []) ≡ some t)
    × (abs_diff 97 t ≤ 5)
    × (text "v1=" ++ text "s1" ++ canonical (99 ∷ []) read_orders ≡ text "v1=" ++ encoded)
    × (plain.hex_decode encoded ≡ some (plain.hmac s.secret (canonical (99 ∷ []) read_orders)))
verify_at_lem_example =
    verify_at_lem plain rotating (some (text "old")) (99 ∷ [])
      (text "v1=" ++ text "s1" ++ canonical (99 ∷ []) read_orders) 97 5 read_orders accepted

read_orders-HasLines : HasLines (text "99") read_orders
read_orders-HasLines = ground arith

canonical_inj_example :
    (text "99" ≡ text "99")
    × (map upper_byte read_orders.method ≡ map upper_byte read_orders.method)
    × (read_orders.path_with_query ≡ read_orders.path_with_query)
    × (read_orders.user_id ≡ read_orders.user_id)
    × (read_orders.tenant_id ≡ read_orders.tenant_id)
    × (read_orders.roles ≡ read_orders.roles)
canonical_inj_example =
    canonical_inj (text "99") (text "99") read_orders read_orders read_orders-HasLines
      read_orders-HasLines refl
