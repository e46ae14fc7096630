-- ===== src/AuthServer/Pagination/Laws.antt =====
-- What reaches the SQL: an order from the allowed columns.
use volta_gateway.Prelude.{
  ℕ, ◌≡◌, ◌⊎◌, inl, inr, refl, ◌∙◌, Option, none, some, List, [], ◌∷◌, ◌++◌, arith, ap₂, any, In,
  In-any, Text, text, text_eq_iff, lower_byte, to_lower, eq_ignore_case, trim, strip_prefix,
  Bool-cases, Option-cases,
}
use volta_gateway.AuthServer.Pagination.{order_of, order_sql}

lower_idem : (b : ℕ) → lower_byte (lower_byte b) ≡ lower_byte b
lower_idem b = ground arith

to_lower_idem : (s : Text) → to_lower (to_lower s) ≡ to_lower s
unfolding to_lower
to_lower_idem [] = refl
to_lower_idem (b ∷ s) = ap₂ ◌∷◌ (lower_idem b) (to_lower_idem s)

-- An order of one of the allowed columns.
abbrev pub IsAllowedOrder : List Text → Text → Type 0
IsAllowedOrder allowed sql =
    (column : Text) × In column allowed
    × ((sql ≡ to_lower column ++ text " " ++ text "ASC")
        ⊎ (sql ≡ to_lower column ++ text " " ++ text "DESC"))

order_of_cases :
    (col_raw dir : Text) (allowed : List Text) (fallback : Text)
    → (order_of col_raw dir allowed fallback ≡ fallback)
      ⊎ ((column : Text) × In column allowed
          × (order_of col_raw dir allowed fallback ≡ to_lower column ++ text " " ++ dir))
unfolding order_of
order_of_cases col_raw dir allowed fallback =
    let col = to_lower (trim col_raw) in
    elim (Bool-cases (any (λ a. eq_ignore_case a col) allowed)) [
      | inl listed ↦
          let (column, m, same) = In-any (λ a. eq_ignore_case a col) allowed listed in
          let lowered : to_lower column ≡ col =
            (text_eq_iff (to_lower column) (to_lower col)).0 same ∙ to_lower_idem (trim col_raw) in
          inr (column, m, rw (listed, lowered) refl)
      | inr unlisted ↦ inl (rw unlisted refl)
    ]

-- Whatever the query says, the order is the fallback or one of the allowed columns in lower case
-- with `ASC` or `DESC`.
pub order_sql_cases :
    (raw : Option Text) (allowed : List Text) (fallback : Text)
    → (order_sql raw allowed fallback ≡ fallback)
      ⊎ IsAllowedOrder allowed (order_sql raw allowed fallback)
unfolding order_sql
order_sql_cases none allowed fallback = inl refl
order_sql_cases (some []) allowed fallback = inl refl
order_sql_cases (some (b ∷ s)) allowed fallback =
    elim (Option-cases (strip_prefix (text "-") (b ∷ s))) [
      | inl ascending ↦
          let same : order_sql (some (b ∷ s)) allowed fallback
              ≡ order_of (b ∷ s) (text "ASC") allowed fallback =
            ground arith in
          elim (order_of_cases (b ∷ s) (text "ASC") allowed fallback) [
            | inl e ↦ inl (same ∙ e)
            | inr (column, m, e) ↦ inr (column, m, inl (same ∙ e))
          ]
      | inr (rest, descending) ↦
          let same : order_sql (some (b ∷ s)) allowed fallback
              ≡ order_of rest (text "DESC") allowed fallback =
            ground arith in
          elim (order_of_cases rest (text "DESC") allowed fallback) [
            | inl e ↦ inl (same ∙ e)
            | inr (column, m, e) ↦ inr (column, m, inr (same ∙ e))
          ]
    ]
