-- ===== src/Gateway/Auth/Redirect.antt =====
-- Where a redirection of the auth server may lead.
use volta_gateway.Prelude.{
  ◌≡◌, ◌≢◌, ◌⊎◌, inl, inr, refl, true, false, not, ◌&&◌, Option, none, some, [], ◌++◌, arith, ◌==◌,
  Bool-cases, Text, text, text_eq, text_eq_iff, starts_with, strip_prefix-append, trim_end,
}
use volta_gateway.Gateway.Auth.{sanitize_redirect}

-- One leading slash, not two.
abbrev pub IsRelative : Text → Type 0
IsRelative url = (starts_with (text "/") url ≡ true) × (starts_with (text "//") url ≡ false)

under_full :
    (base url : Text)
    → (not (text_eq (trim_end (λ c. c == b'/') base) [])
        && starts_with (trim_end (λ c. c == b'/') base) url)
      ≡ true
    → text_eq (trim_end (λ c. c == b'/') base) [] ≡ false
under_full base url h = ground arith

-- The redirection leads to `/login`, to a path of the same site, or to a text that begins with the
-- public address of the auth server, its trailing slashes taken off.
pub sanitize_redirect_cases :
    (url : Text) (public_url : Option Text)
    → (sanitize_redirect url public_url ≡ text "/login")
      ⊎ ((sanitize_redirect url public_url ≡ url)
          × (IsRelative url
              ⊎ ((base : Text) × (public_url ≡ some base)
                  × (trim_end (λ c. c == b'/') base ≢ [])
                  × (starts_with (trim_end (λ c. c == b'/') base) url ≡ true))))
unfolding sanitize_redirect
sanitize_redirect_cases url none = ground arith
sanitize_redirect_cases url (some base) =
    elim (Bool-cases (starts_with (text "/") url && not (starts_with (text "//") url))) [
      | inl relative ↦ inr (ground arith, inl (ground arith, ground arith))
      | inr absolute ↦
          elim (Bool-cases (
            not (text_eq (trim_end (λ c. c == b'/') base) [])
            && starts_with (trim_end (λ c. c == b'/') base) url)) [
              | inl under ↦ inr (
                ground arith,
                inr (
                  base,
                  refl,
                  λ e. cc (
                    (text_eq_iff (trim_end (λ c. c == b'/') base) []).1 e,
                    under_full base url under,
                  ),
                  ground arith,
                ),
              )
              | inr outside ↦ inl (ground arith)
            ]
    ]

-- Every text that continues the address is let through as it stands, also where it continues the
-- host's name, so that another site can be reached.
pub sanitize_redirect-append :
    (base suffix : Text)
    → base ≢ []
    → trim_end (λ c. c == b'/') base ≡ base
    → sanitize_redirect (base ++ suffix) (some base) ≡ base ++ suffix
unfolding sanitize_redirect starts_with
sanitize_redirect-append base suffix full plain =
    let empty_not : text_eq base [] ≡ false = elim (Bool-cases (text_eq base [])) [
      | inl e ↦ absurd (full ((text_eq_iff base []).0 e))
      | inr e ↦ e
    ] in
    rw (plain, empty_not, strip_prefix-append base suffix) (ground arith)
