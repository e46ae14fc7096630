-- ===== src/Prelude/Reports.antt =====
-- Lists of errors that a check collects: one error where a test fails, and none where it holds.
use mathlib.Core.Path.{◌≡◌, refl}
use mathlib.Core.Logic.{inl, inr}
use mathlib.Core.Bool.{Bool, true, false}
use mathlib.Core.List.{List, [], ◌∷◌, ◌++◌}
use volta_gateway.Prelude.Tests.{Bool-cases}
use volta_gateway.Prelude.Lists.{All}

pub append-nil {ℓ} : {A : Type ℓ} (xs ys : List A) → xs ++ ys ≡ [] → (xs ≡ []) × (ys ≡ [])
append-nil [] ys h = (refl, h)
append-nil (x ∷ xs) ys h = cc

abbrev pub report {κ} : {E : Type κ} → Bool → E → List E
report true e = e ∷ []
report false e = []

pub report-nil {κ} : {E : Type κ} (bad : Bool) (e : E) → report bad e ≡ [] → bad ≡ false
report-nil true e h = cc
report-nil false e h = refl

module _ {ℓ κ} {A : Type ℓ} {E : Type κ} where
  -- One report for each item that fails a test.
  unfoldable pub report_each : (A → Bool) → (A → E) → List A → List E
  report_each bad e [] = []
  report_each bad e (x ∷ xs) = report (bad x) (e x) ++ report_each bad e xs

  pub report_each-nil :
      (bad : A → Bool) (e : A → E) (xs : List A)
      → report_each bad e xs ≡ []
      → All (λ x. bad x ≡ false) xs
  unfolding report_each
  report_each-nil bad e [] h = tt
  report_each-nil bad e (x ∷ xs) h = elim (Bool-cases (bad x)) [
    | inl is_bad ↦ absurd (cc (rw is_bad at h))
    | inr good ↦ (good, report_each-nil bad e xs (rw good at h))
  ]

  -- The reports of all items.
  unfoldable pub report_all : (A → List E) → List A → List E
  report_all errors [] = []
  report_all errors (x ∷ xs) = errors x ++ report_all errors xs

  pub report_all-nil :
      (errors : A → List E) (xs : List A) → report_all errors xs ≡ [] → All (λ x. errors x ≡ []) xs
  unfolding report_all
  report_all-nil errors [] h = tt
  report_all-nil errors (x ∷ xs) h =
      let (first, rest) = append-nil (errors x) (report_all errors xs) h in
      (first, report_all-nil errors xs rest)
