-- ===== src/Gateway/Auth/Laws.antt =====
-- When the client lets a request in, and when it stays closed.
use volta_gateway.Prelude.{
  ℕ, suc, u64, ◌||◌, ◌≡◌, ◌≢◌, ◌⊎◌, ◌↔◌, if◌then◌else◌, inl, inr, refl, Bool, true, Option, some,
  List, [], arith, ◌==◌, Text, Bool-cases, Option-cases, ap,
}
use volta_gateway.Prelude.Dict.{Dict}
use volta_gateway.Gateway.Auth.{
  AuthError, build_request, error, counted, returned, request_failed, timeout, SessionResult, valid,
  authenticated, denied, Online, unbuilt, responded, unanswered, timed_out, volta_headers,
  online_result, VoltaAuthClient, degraded_fallback, check_with_degraded_policy,
}

-- An exchange that gave no response, or one with any other status than 200, 401, 302 and 403: not
-- only an error of the server, but also 404 or 429.
abbrev pub IsDown : Online → Type 0
IsDown (responded status _ _) = (status ≢ 200) × (status ≢ 401) × (status ≢ 302) × (status ≢ 403)
IsDown (unbuilt _) = ⊥
IsDown (unanswered _) = Unit
IsDown timed_out = Unit

-- The local check took the place of the auth server: the mode is on, the call may fall back, the
-- server gave no usable answer, and the caller's token is valid.
pub record FellBack (c : VoltaAuthClient) (online : Online) (cookie : Option Text) (allowed : Bool)
    (headers : Dict Text Text) : Type 0 where
  pub mode : c.degraded_mode ≡ true
  pub may : allowed ≡ true
  pub down : IsDown online
  pub verifier :
      (verify : Option Text → SessionResult) × (c.session_verifier ≡ some verify)
      × (verify cookie ≡ valid headers)

-- What a fallback that succeeds has found.
degraded_fallback-authenticated :
    (c : VoltaAuthClient) (cookie : Option Text) (e : AuthError) (headers : Dict Text Text)
    (d : VoltaAuthClient)
    → degraded_fallback c cookie e ≡ (authenticated headers, d)
    → (c.degraded_mode ≡ true)
      × ((verify : Option Text → SessionResult) × (c.session_verifier ≡ some verify)
          × (verify cookie ≡ valid headers))
      × (d ≡ counted c)
unfolding degraded_fallback
degraded_fallback-authenticated c cookie e headers d h = elim (Option-cases c.session_verifier) [
  | inl missing ↦ absurd (ground arith)
  | inr (verify, found) ↦ (ground arith, (verify, found, ground arith), ground arith)
]

-- And what makes it succeed.
authenticated-degraded_fallback :
    (c : VoltaAuthClient) (cookie : Option Text) (e : AuthError) (headers : Dict Text Text)
    → c.degraded_mode ≡ true
    → ((verify : Option Text → SessionResult) × (c.session_verifier ≡ some verify)
        × (verify cookie ≡ valid headers))
    → degraded_fallback c cookie e ≡ (authenticated headers, counted c)
unfolding degraded_fallback
authenticated-degraded_fallback c cookie e headers mode (verify, found, good) = ground arith

-- The error that an exchange without a usable answer is.
abbrev error_of : Online → AuthError
error_of (responded status _ _) = returned status
error_of (unbuilt e) = build_request e
error_of (unanswered e) = request_failed e
error_of timed_out = timeout

-- Such an exchange comes to the fallback, if the call allows it.
check-IsDown :
    (c : VoltaAuthClient) (online : Online) (cookie : Option Text) (allowed : Bool)
    → IsDown online
    → check_with_degraded_policy c online cookie allowed ≡ (
        if allowed
        then degraded_fallback c cookie (error_of online)
        else (error (error_of online), c))
unfolding check_with_degraded_policy online_result
check-IsDown c (unbuilt e) cookie allowed h = absurd h
check-IsDown c (responded status location hs) cookie allowed h = ground arith
check-IsDown c (unanswered e) cookie allowed h = refl
check-IsDown c timed_out cookie allowed h = refl

fell_back :
    (c : VoltaAuthClient) (online : Online) (cookie : Option Text) (allowed : Bool)
    (headers : Dict Text Text) (d : VoltaAuthClient)
    → IsDown online
    → check_with_degraded_policy c online cookie allowed ≡ (authenticated headers, d)
    → FellBack c online cookie allowed headers × (d ≡ counted c)
fell_back c online cookie allowed headers d down h =
    let same = check-IsDown c online cookie allowed down in
    let tried : (allowed ≡ true)
        × (degraded_fallback c cookie (error_of online) ≡ (authenticated headers, d)) =
      ground arith in
    let (mode, verifier, counted_once) =
      degraded_fallback-authenticated c cookie (error_of online) headers d tried.1 in
    (record { mode = mode; may = tried.0; down = down; verifier = verifier }, counted_once)

-- The auth server answered 200, with these headers, and the client is as it was.
abbrev pub Answered :
    VoltaAuthClient → Online → (headers : Dict Text Text) → VoltaAuthClient → Type 0
Answered c online headers d =
    (location : Option Text) × (hs : List (Text × Text)) × (online ≡ responded 200 location hs)
    × (headers ≡ volta_headers hs [])
    × (d ≡ c)

check-Answered :
    (c : VoltaAuthClient) (status : ℕ) (location : Option Text) (hs : List (Text × Text))
    (cookie : Option Text) (allowed : Bool) (headers : Dict Text Text) (d : VoltaAuthClient)
    → ¬ (IsDown (responded status location hs))
    → check_with_degraded_policy c (responded status location hs) cookie allowed
      ≡ (authenticated headers, d)
    → Answered c (responded status location hs) headers d
unfolding check_with_degraded_policy online_result
check-Answered c status location hs cookie allowed headers d answered h =
    elim (Bool-cases (status == 200)) [
      | inl good ↦
          let is_200 : status ≡ 200 = ground arith in
          (location, hs, ap (λ n. responded n location hs) is_200, ground arith, ground arith)
      | inr other ↦ absurd (answered (ground arith))
    ]

authenticated-check :
    (c : VoltaAuthClient) (online : Online) (cookie : Option Text) (allowed : Bool)
    (headers : Dict Text Text) (d : VoltaAuthClient)
    → check_with_degraded_policy c online cookie allowed ≡ (authenticated headers, d)
    → Answered c online headers d ⊎ (FellBack c online cookie allowed headers × (d ≡ counted c))
unfolding check_with_degraded_policy
authenticated-check c (unbuilt e) cookie allowed headers d h = absurd (ground arith)
authenticated-check c (responded status location hs) cookie allowed headers d h =
    elim (Bool-cases (status == 200 || status == 401 || (status == 302 || status == 403))) [
      | inl answered ↦
          inl
            (check-Answered c status location hs cookie allowed headers d (λ down. ground arith) h)
      | inr down ↦
          inr (fell_back c (responded status location hs) cookie allowed headers d (ground arith) h)
    ]
authenticated-check c (unanswered e) cookie allowed headers d h =
    inr (fell_back c (unanswered e) cookie allowed headers d tt h)
authenticated-check c timed_out cookie allowed headers d h =
    inr (fell_back c timed_out cookie allowed headers d tt h)

check-FellBack :
    (c : VoltaAuthClient) (online : Online) (cookie : Option Text) (allowed : Bool)
    (headers : Dict Text Text)
    → FellBack c online cookie allowed headers
    → check_with_degraded_policy c online cookie allowed ≡ (authenticated headers, counted c)
check-FellBack c online cookie allowed headers fell =
    let same = check-IsDown c online cookie allowed fell.down in
    let tried =
      authenticated-degraded_fallback c cookie (error_of online) headers fell.mode fell.verifier in
    let may : allowed ≡ true = fell.may in ground arith

check-200 :
    (c : VoltaAuthClient) (location : Option Text) (hs : List (Text × Text)) (cookie : Option Text)
    (allowed : Bool)
    → check_with_degraded_policy c (responded 200 location hs) cookie allowed
      ≡ (authenticated (volta_headers hs []), c)
unfolding check_with_degraded_policy online_result
check-200 c location hs cookie allowed = refl

-- The client answers that the caller is authenticated exactly if the auth server answered 200, and then
-- with its `x-volta-` headers and the client as it was, or if it fell back on the local check, and
-- then the counter, which wraps, goes up by one. Any status but 200, 401, 302 and 403 lets it fall
-- back, also one below 500.
pub check-authenticated :
    (c : VoltaAuthClient) (online : Online) (cookie : Option Text) (allowed : Bool)
    (headers : Dict Text Text) (d : VoltaAuthClient)
    → (check_with_degraded_policy c online cookie allowed ≡ (authenticated headers, d)) ↔ (
        Answered c online headers d
        ⊎ (FellBack c online cookie allowed headers
            × (d ≡ record c { degraded_total = u64 (suc c.degraded_total) })))
check-authenticated c online cookie allowed headers d = (
  authenticated-check c online cookie allowed headers d,
  λ h. elim h [
    | inl (location, hs, at, named, unchanged) ↦
        let good = check-200 c location hs cookie allowed in rw at (ground arith)
    | inr (fell, counted_once) ↦
        let good = check-FellBack c online cookie allowed headers fell in ground arith
  ],
)

-- A refusal or a redirection by the auth server is final: no fallback turns it into anything else.
pub check-denied :
    (c : VoltaAuthClient) (location : Option Text) (hs : List (Text × Text)) (cookie : Option Text)
    (allowed : Bool)
    → check_with_degraded_policy c (responded 403 location hs) cookie allowed ≡ (denied, c)
unfolding check_with_degraded_policy online_result
check-denied c location hs cookie allowed = refl
