-- ===== src/AuthServer/Pagination.antt =====
-- The pages of the admin lists: auth-server/src/pagination.rs. Texts are ASCII; a filter of the
-- query that only the SQL reads is left out of `PageRequest`.
pub mod Laws
use volta_gateway.Prelude.{
  ℕ, ◌+◌, ◌-◌, ◌*◌, ◌/◌, min, max, Bool, Option, none, some, List, [], ◌∷◌, ◌++◌, map, any, ◌==◌,
  if◌then◌else◌, u32, Text, text, text_eq, trim, strip_prefix, to_lower, eq_ignore_case,
}

pub record PageRequest : Type 0 where
  pub page : ℕ
  pub size : ℕ

pub record PageResponse {ℓ} (T : Type ℓ) : Type ℓ where
  pub items : List T
  pub total : ℕ
  pub page : ℕ
  pub size : ℕ
  pub pages : ℕ

abbrev pub max_size : ℕ
max_size = 500

abbrev pub default_request : PageRequest
default_request = record { page = 1; size = 50 }

unfoldable pub normalized : PageRequest → PageRequest
normalized r = record { page = max r.page 1; size = min (max r.size 1) max_size }

unfoldable pub offset : PageRequest → ℕ
offset r = (r.page - 1) * r.size

unfoldable pub order_of : Text → Text → List Text → Text → Text
order_of col_raw dir allowed fallback =
    let col = to_lower (trim col_raw) in
    if any (λ a. eq_ignore_case a col) allowed then col ++ text " " ++ dir else fallback

unfoldable pub order_sql : Option Text → List Text → Text → Text
order_sql none allowed fallback = fallback
order_sql (some []) allowed fallback = fallback
order_sql (some (b ∷ s)) allowed fallback = elim (strip_prefix (text "-") (b ∷ s)) [
  | some rest ↦ order_of rest (text "DESC") allowed fallback
  | none ↦ order_of (b ∷ s) (text "ASC") allowed fallback
]

abbrev div_ceil : ℕ → ℕ → ℕ
div_ceil a b = (a + (b - 1)) / b

-- A negative total counts as 0, so `total` is what `max(0)` leaves of it.
unfoldable pub page_response {ℓ} :
    {T : Type ℓ} → List T → (total : ℕ) → PageRequest → PageResponse T
page_response items total req = record {
  items = items;
  total = total;
  page = req.page;
  size = req.size;
  pages = if req.size == 0 then 0 else u32 (div_ceil total req.size);
}
