-- ===== src/Gateway/Routing/Laws.antt =====
-- Prefixes match at path segments only, and a wildcard entry covers one label.
use volta_gateway.Prelude.{
  ◌≡◌, ◌↔◌, refl, ◌⊎◌, inl, inr, true, some, [], ◌∷◌, ◌++◌, arith, Bool-cases, Option-cases, Text,
  text, text_eq, text_eq_iff, strip_prefix, starts_with, ends_with_byte, strip_prefix-append,
  append-strip_prefix,
}
use volta_gateway.Gateway.Routing.{bypass_path_matches}

-- The text begins with `/`.
abbrev pub StartsSegment : Text → Type 0
StartsSegment [] = ⊥
StartsSegment (b ∷ _) = b ≡ b'/'

starts_with-slash : (s : Text) → (starts_with (text "/") s ≡ true) ↔ StartsSegment s
unfolding starts_with strip_prefix
starts_with-slash [] = ground arith
starts_with-slash (b ∷ s) = ground arith

starts_with_iff : (p s : Text) → (starts_with p s ≡ true) ↔ ((r : Text) × (s ≡ p ++ r))
unfolding starts_with
starts_with_iff p s = (
  λ h. elim (Option-cases (strip_prefix p s)) [
    | inl e ↦ absurd (ground arith)
    | inr (r, e) ↦ (r, append-strip_prefix p s r e)
  ],
  λ (r, e). rw (e, strip_prefix-append p r) refl,
)

-- A prefix matches exactly the path equal to it and the paths that go on behind it with a `/`,
-- which may be the prefix's own last byte.
pub bypass_path_matches_iff :
    (path prefix : Text)
    → (bypass_path_matches path prefix ≡ true) ↔ (
        (path ≡ prefix)
        ⊎ ((rest : Text) × (path ≡ prefix ++ rest)
            × ((ends_with_byte b'/' prefix ≡ true) ⊎ StartsSegment rest)))
unfolding bypass_path_matches
bypass_path_matches_iff path prefix = (
  λ h. elim (Bool-cases (text_eq path prefix)) [
    | inl same ↦ inl ((text_eq_iff path prefix).0 same)
    | inr other ↦ elim (Bool-cases (ends_with_byte b'/' prefix)) [
      | inl slash ↦
          let (rest, e) = (starts_with_iff prefix path).0 (ground arith) in inr (rest, e, inl slash)
      | inr bare ↦ elim (Option-cases (strip_prefix prefix path)) [
        | inl e ↦ absurd (ground arith)
        | inr (rest, e) ↦ inr (
          rest,
          append-strip_prefix prefix path rest e,
          inr ((starts_with-slash rest).0 (ground arith)),
        )
      ]
    ]
  ],
  λ h. elim h [
    | inl same ↦ rw ((text_eq_iff path prefix).1 same) refl
    | inr (rest, e, how) ↦
        let strip : strip_prefix prefix path ≡ some rest =
          rw (e, strip_prefix-append prefix rest) refl in
        let starts : starts_with prefix path ≡ true = (starts_with_iff prefix path).1 (rest, e) in
        elim how [
          | inl slash ↦ ground arith
          | inr segment ↦
              let first : starts_with (text "/") rest ≡ true = (starts_with-slash rest).1 segment in
              ground arith
        ]
  ],
)
