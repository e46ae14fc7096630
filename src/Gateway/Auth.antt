-- ===== src/Gateway/Auth.antt =====
-- The gateway's client of `/auth/verify`: gateway/src/auth.rs.
-- The HTTP exchange and the verification of a token are parameters: what the exchange yields is an
-- `Online` value, and a verifier maps a token to claims or an error. The texts of the errors are
-- kept as constructors.
pub mod Laws
pub mod Redirect
use volta_gateway.Prelude.{
  ℕ, suc, ◌+◌, u64, Bool, true, false, not, ◌&&◌, Option, none, some, List, [], ◌∷◌, ◌==◌,
  if◌then◌else◌, and_then, unwrap_or, Text, text, text_eq, text_is_eq, strip_prefix, starts_with,
  trim, trim_end, split,
}
use volta_gateway.Prelude.Dict.{Dict, insert}

pub data SessionResult : Type 0 where
  valid : Dict Text Text → SessionResult
  expired : SessionResult
  invalid : Text → SessionResult
  no_session : SessionResult

pub data JwtError : Type 0 where
  expired : JwtError
  other : Text → JwtError

pub data Verified : Type 0 where
  claims : Dict Text Text → Verified
  failed : JwtError → Verified

pub data AuthError : Type 0 where
  build_request : Text → AuthError
  returned : ℕ → AuthError
  request_failed : Text → AuthError
  timeout : AuthError

pub data AuthResult : Type 0 where
  authenticated : Dict Text Text → AuthResult
  redirect : Text → AuthResult
  denied : AuthResult
  error : AuthError → AuthResult

-- What came of the request: a response with its status, `Location` and headers, or no response.
pub data Online : Type 0 where
  unbuilt : Text → Online
  responded : ℕ → Option Text → List (Text × Text) → Online
  unanswered : Text → Online
  timed_out : Online

-- The pieces of the header, trimmed, in order; the first that is `<name>=<value>`.
unfoldable pub extract_from : Text → List Text → Option Text
extract_from cookie_name [] = none
extract_from cookie_name (piece ∷ pieces) =
    let later = extract_from cookie_name pieces in
    elim (and_then (strip_prefix cookie_name (trim piece)) (λ rest. strip_prefix (text "=") rest)) [
      | some value ↦ some value
      | none ↦ later
    ]

unfoldable pub extract : Text → Text → Option Text
extract cookie_name cookie_header = extract_from cookie_name (split b';' cookie_header)

unfoldable pub map_verified : Verified → SessionResult
map_verified (claims headers) = valid headers
map_verified (failed JwtError.expired) = SessionResult.expired
map_verified (failed (other message)) = invalid message

-- `verify_cookie`, for a verifier of tokens.
unfoldable pub verify_cookie : Text → (Text → Verified) → Option Text → SessionResult
verify_cookie cookie_name verify cookie_header =
    elim (and_then cookie_header (extract cookie_name)) [
      | none ↦ no_session
      | some token ↦ map_verified (verify token)
    ]

unfoldable pub sanitize_redirect : Text → Option Text → Text
sanitize_redirect url auth_public_url =
    if starts_with (text "/") url && not (starts_with (text "//") url)
    then url
    else elim auth_public_url [
      | none ↦ text "/login"
      | some public_url ↦
          let base = trim_end (λ c. c == b'/') public_url in
          if not (text_eq base []) && starts_with base url then url else text "/login"
    ]

-- The `x-volta-` headers of a 200 response.
unfoldable pub volta_headers : List (Text × Text) → Dict Text Text → Dict Text Text
volta_headers [] found = found
volta_headers ((name, value) ∷ rest) found =
    volta_headers rest
      (if starts_with (text "x-volta-") name then insert name value found else found)

-- The `match` on the exchange.
unfoldable pub online_result : Option Text → Online → AuthResult
online_result auth_public_url (unbuilt e) = error (build_request e)
online_result auth_public_url (responded status location headers) =
    if status == 200
    then authenticated (volta_headers headers [])
    else if status == 401
    then redirect (sanitize_redirect (unwrap_or (text "/login") location) auth_public_url)
    else if status == 302
    then redirect (sanitize_redirect (unwrap_or (text "/login") location) auth_public_url)
    else if status == 403
    then denied
    else error (returned status)
online_result auth_public_url (unanswered e) = error (request_failed e)
online_result auth_public_url timed_out = error timeout

pub record VoltaAuthClient : Type 0 where
  -- The in-process verifier, over the `Cookie` header.
  pub session_verifier : Option (Option Text → SessionResult)
  pub auth_public_url : Option Text
  pub degraded_mode : Bool
  pub degraded_total : ℕ

-- `fetch_add` wraps.
abbrev pub counted : VoltaAuthClient → VoltaAuthClient
counted c = record c { degraded_total = u64 (suc c.degraded_total) }

unfoldable pub degraded_fallback :
    VoltaAuthClient → Option Text → AuthError → AuthResult × VoltaAuthClient
degraded_fallback c cookie err_msg =
    if not c.degraded_mode then (error err_msg, c) else elim c.session_verifier [
      | none ↦ (error err_msg, c)
      | some verify ↦ elim (verify cookie) [
        | valid headers ↦ (authenticated headers, counted c)
        | _ ↦ (error err_msg, c)
      ]
    ]

-- `build_request` returns before the fallback is looked at.
unfoldable pub check_with_degraded_policy :
    VoltaAuthClient → Online → Option Text → Bool → AuthResult × VoltaAuthClient
check_with_degraded_policy c (unbuilt e) cookie allow_degraded_fallback =
    (error (build_request e), c)
check_with_degraded_policy c online cookie allow_degraded_fallback =
    elim (online_result c.auth_public_url online) [
      | error msg ↦
          if allow_degraded_fallback then degraded_fallback c cookie msg else (error msg, c)
      | authenticated headers ↦ (authenticated headers, c)
      | redirect location ↦ (redirect location, c)
      | denied ↦ (denied, c)
    ]
