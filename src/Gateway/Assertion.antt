-- ===== src/Gateway/Assertion.antt =====
-- The signed assertion of the gateway to a backend: gateway/src/assertion.rs. HMAC-SHA256, the hex
-- code and the decimal form of a number are parameters, and the clock is an argument.
pub mod Canonical
pub mod Laws
use volta_gateway.Prelude.{
  ℕ, ◌+◌, ◌-◌, Bool, true, false, not, ◌&&◌, ◌||◌, Option, none, some, List, [], ◌∷◌, ◌++◌, map,
  all, length, is_empty, leb, ltb, ◌==◌, if◌then◌else◌, and_then, is_some, Text, text, text_eq,
  upper_byte, strip_prefix,
}
use volta_gateway.AuthCore.Policy.{join}

-- `u64::to_string` and its parser, `hex::encode` and `hex::decode`, and HMAC-SHA256 of a key and a
-- message.
pub record Codec : Type 0 where
  pub show_u64 : ℕ → Text
  pub parse_u64 : Text → Option ℕ
  pub hex_encode : Text → Text
  pub hex_decode : Text → Option Text
  pub hmac : Text → Text → Text

pub record GatewayAssertionSigner : Type 0 where
  pub key_id : Text
  pub secret : Text

pub record GatewayAssertion : Type 0 where
  pub key_id : Text
  pub timestamp : Text
  pub signature : Text

pub record GatewayAssertionVerifier : Type 0 where
  pub current : GatewayAssertionSigner
  pub previous : Option GatewayAssertionSigner

abbrev pub min_secret_len : ℕ
min_secret_len = 32

abbrev pub legacy_key_id : Text
legacy_key_id = text "legacy"

abbrev is_key_byte : ℕ → Bool
is_key_byte b =
    leb b'0' b && leb b b'9'
    || leb b'A' b && leb b b'Z'
    || leb b'a' b && leb b b'z'
    || (b == b'-' || b == b'_' || b == b'.')

-- `validate_key_id`: `true` is `Ok(())`.
unfoldable pub is_key_id : Text → Bool
is_key_id key_id = not (is_empty key_id || ltb 64 (length key_id) || not (all is_key_byte key_id))

pub data SignerError : Type 0 where
  bad_key_id short_secret : SignerError

pub data Signer : Type 0 where
  signer : GatewayAssertionSigner → Signer
  rejected : SignerError → Signer

unfoldable pub new_with_key_id : Text → Text → Signer
new_with_key_id key_id secret =
    if not (is_key_id key_id)
    then rejected bad_key_id
    else if ltb (length secret) min_secret_len
    then rejected short_secret
    else signer (record { key_id = key_id; secret = secret })

-- `GatewayAssertionVerifier::new`: `none` is the error.
unfoldable pub new_verifier :
    GatewayAssertionSigner → Option GatewayAssertionSigner → Option GatewayAssertionVerifier
new_verifier current none = some (record { current = current; previous = none })
new_verifier current (some previous) =
    if text_eq previous.key_id current.key_id
    then none
    else some (record { current = current; previous = some previous })

-- What of a request is signed.
pub record Request : Type 0 where
  pub method : Text
  pub path_with_query : Text
  pub user_id : Text
  pub tenant_id : Text
  pub roles : Text

abbrev pub fields : Text → Request → List Text
fields timestamp r =
    text "v1"
    ∷ timestamp
    ∷ map upper_byte r.method
    ∷ r.path_with_query
    ∷ r.user_id
    ∷ r.tenant_id
    ∷ r.roles
    ∷ []

-- The signed text: the fields, with a line feed between them.
unfoldable pub canonical : Text → Request → Text
canonical timestamp r = join (10 ∷ []) (fields timestamp r)

pub data VerifyError : Type 0 where
  invalid_timestamp outside_window unknown_key_id key_id_required : VerifyError
  unsupported_version invalid_encoding invalid_signature : VerifyError

pub data Selected : Type 0 where
  use_signer : GatewayAssertionSigner → Selected
  no_signer : VerifyError → Selected

abbrev pub previous_for : Text → Option GatewayAssertionSigner → Selected
previous_for key_id none = no_signer unknown_key_id
previous_for key_id (some previous) =
    if text_eq previous.key_id key_id then use_signer previous else no_signer unknown_key_id

unfoldable pub select_signer : GatewayAssertionVerifier → Option Text → Selected
select_signer v (some key_id) =
    if text_eq key_id v.current.key_id then use_signer v.current else previous_for key_id v.previous
select_signer v none =
    if is_some v.previous then no_signer key_id_required else use_signer v.current

abbrev pub abs_diff : ℕ → ℕ → ℕ
abs_diff a b = (a - b) + (b - a)

module _ (codec : Codec) where
  unfoldable pub sign_at : GatewayAssertionSigner → ℕ → Request → GatewayAssertion
  sign_at s timestamp r = record {
    key_id = s.key_id;
    timestamp = codec.show_u64 timestamp;
    signature =
        text "v1="
        ++ codec.hex_encode (codec.hmac s.secret (canonical (codec.show_u64 timestamp) r));
  }

  -- The signature against that of the signer.
  unfoldable pub check_signature :
      GatewayAssertionSigner → (timestamp signature : Text) → Request → Option VerifyError
  check_signature s timestamp signature r = elim (strip_prefix (text "v1=") signature) [
    | none ↦ some unsupported_version
    | some encoded ↦ elim (codec.hex_decode encoded) [
      | none ↦ some invalid_encoding
      | some provided ↦
          if text_eq provided (codec.hmac s.secret (canonical timestamp r))
          then none
          else some invalid_signature
    ]
  ]

  -- `none` is `Ok(())`.
  unfoldable pub verify_at :
      GatewayAssertionVerifier
      → Option Text
      → (timestamp signature : Text) (now max_clock_skew_secs : ℕ) → Request
      → Option VerifyError
  verify_at v key_id timestamp signature now max_clock_skew_secs r =
      elim (codec.parse_u64 timestamp) [
        | none ↦ some invalid_timestamp
        | some t ↦
            if ltb max_clock_skew_secs (abs_diff now t)
            then some outside_window
            else elim (select_signer v key_id) [
              | no_signer e ↦ some e
              | use_signer s ↦ check_signature s timestamp signature r
            ]
      ]
