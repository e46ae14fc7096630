-- ===== src/Prelude/Dict.antt =====
-- Rust's `HashMap` as an association list. `insert` writes an old key in place and appends a new
-- one, so a map built by these operations holds each key once. The order of the list stands for
-- the order of iteration, which Rust leaves open: theorems hold for every list.
pub mod Laws
use Prim.Native.Nat.{ℕ, zero, suc, ◌+◌, ◌≤◌, ◌<◌}
use mathlib.Core.Path.{◌≡◌, refl}
use mathlib.Core.Logic.{◌≢◌, inl, inr}
use mathlib.Core.Bool.{Bool, true, false}
use mathlib.Core.Option.{Option, none, some}
use mathlib.Core.List.{List, [], ◌∷◌}
use native.Mathlib.Omega.{arith}
use volta_gateway.Prelude.Tests.{Eq, if◌then◌else◌, is_some, Bool-cases}
use volta_gateway.Prelude.Lists.{length, All}

abbrev pub Dict {ℓ κ} : Type ℓ → Type κ → Type (ℓ ⊔ κ)
Dict K V = List (K × V)

module _ {ℓ κ} {K : Type ℓ} {V : Type κ} ⦃e : Eq K⦄ where
  unfoldable pub get : K → Dict K V → Option V
  get k [] = none
  get k ((j, v) ∷ m) = let rest = get k m in if e.beq j k then some v else rest

  unfoldable pub insert : K → V → Dict K V → Dict K V
  insert k v [] = (k, v) ∷ []
  insert k v ((j, w) ∷ m) =
      let rest = insert k v m in if e.beq j k then (k, v) ∷ m else (j, w) ∷ rest

  unfoldable pub remove : K → Dict K V → Dict K V
  remove k [] = []
  remove k ((j, w) ∷ m) = let rest = remove k m in if e.beq j k then rest else (j, w) ∷ rest

  unfoldable pub contains_key : K → Dict K V → Bool
  unfolding get
  contains_key k m = is_some (get k m)

  -- `HashMap::retain`.
  unfoldable pub retain : (K → V → Bool) → Dict K V → Dict K V
  retain p [] = []
  retain p ((j, w) ∷ m) = let rest = retain p m in if p j w then (j, w) ∷ rest else rest

  -- Each key once.
  abbrev pub Nodup : Dict K V → Type ℓ
  Nodup [] = Unit
  Nodup ((j, _) ∷ m) = All (λ b. e.beq b.0 j ≡ false) m × Nodup m
