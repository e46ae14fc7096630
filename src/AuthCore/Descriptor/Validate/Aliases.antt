-- ===== src/AuthCore/Descriptor/Validate/Aliases.antt =====
-- Aliases without errors are consistent.
use volta_gateway.Prelude.{
  ◌≡◌, ◌⊎◌, inl, inr, true, false, not, none, some, List, [], ◌∷◌, arith, All, Text, text_eq,
  text_eq_iff, text_is_eq, Bool-cases, Option-cases,
}
use volta_gateway.Prelude.Dict.{Dict, get, insert}
use volta_gateway.Prelude.Dict.Laws.{get-insert, get-insert_self}
use volta_gateway.AuthCore.Descriptor.Validate.{alias_errors}

-- All aliases of one text stand for one class.
abbrev pub IsConsistent : List (Text × Text) → Type 0
IsConsistent [] = Unit
IsConsistent ((alias, fqcn) ∷ aliases) =
    All (λ p. text_eq p.0 alias ≡ true → p.1 ≡ fqcn) aliases × IsConsistent aliases

same_text : (a b : Text) → not (text_eq a b) ≡ false → a ≡ b
same_text a b h = ground (arith, text_eq_iff a b)

-- One step over the aliases, without an error.
alias_errors-cons :
    (x f : Text) (aliases : List (Text × Text)) (seen : Dict Text Text)
    → alias_errors ((x, f) ∷ aliases) seen ≡ []
    → ((get x seen ≡ none) × (alias_errors aliases (insert x f seen) ≡ []))
      ⊎ ((get x seen ≡ some f) × (alias_errors aliases seen ≡ []))
unfolding alias_errors
alias_errors-cons x f aliases seen h = elim (Option-cases (get x seen)) [
  | inl new ↦ inl (new, ground arith)
  | inr (prev, old) ↦ elim (Bool-cases (text_eq prev f)) [
    | inl same ↦ let e : prev ≡ f = (text_eq_iff prev f).0 same in inr (rw (← e) old, ground arith)
    | inr other ↦ absurd (ground arith)
  ]
]

alias_errors-seen :
    (aliases : List (Text × Text)) (seen : Dict Text Text) (alias a : Text)
    → alias_errors aliases seen ≡ []
    → get alias seen ≡ some a
    → All (λ p. text_eq p.0 alias ≡ true → p.1 ≡ a) aliases
alias_errors-seen [] seen alias a h at = tt
alias_errors-seen ((x, f) ∷ aliases) seen alias a h at =
    elim (alias_errors-cons x f aliases seen h) [
      | inl (new, rest) ↦ (
        λ same. ground (arith, text_eq_iff x alias),
        alias_errors-seen aliases (insert x f seen) alias a rest
            (ground (arith, get-insert x alias f seen, text_eq_iff x alias)),
      )
      | inr (old, rest) ↦ (
        λ same. ground (arith, text_eq_iff x alias),
        alias_errors-seen aliases seen alias a rest at,
      )
    ]

pub alias_errors-nil :
    (aliases : List (Text × Text)) (seen : Dict Text Text)
    → alias_errors aliases seen ≡ []
    → IsConsistent aliases
alias_errors-nil [] seen h = tt
alias_errors-nil ((x, f) ∷ aliases) seen h = elim (alias_errors-cons x f aliases seen h) [
  | inl (new, rest) ↦ (
    alias_errors-seen aliases (insert x f seen) x f rest (get-insert_self x f seen),
    alias_errors-nil aliases (insert x f seen) rest,
  )
  | inr (old, rest) ↦
      (alias_errors-seen aliases seen x f rest old, alias_errors-nil aliases seen rest)
]
