-- ===== src/Prelude/Dict/Laws.antt =====
-- What reads give after writes, that keys stay distinct, and how the size changes.
use Prim.Native.Nat.{suc, ◌≤◌, ◌<◌}
use mathlib.Core.Path.{◌≡◌, refl, ◌∙◌, subst}
use mathlib.Core.Logic.{inl, inr}
use mathlib.Core.Bool.{Bool, true, false}
use mathlib.Core.Option.{none, some}
use mathlib.Core.List.{[], ◌∷◌}
use native.Mathlib.Omega.{arith}
use volta_gateway.Prelude.Tests.{Eq, if◌then◌else◌, and_then, Bool-cases}
use volta_gateway.Prelude.Lists.{length, All}
use volta_gateway.Prelude.Dict.{Dict, get, insert, remove, contains_key, retain, Nodup}

module _ {ℓ} {K : Type ℓ} ⦃e : Eq K⦄ where
  pub beq_refl : (k : K) → e.beq k k ≡ true
  beq_refl k = (e.beq_iff k k).1 refl

  pub beq_sym : (j k : K) → e.beq j k ≡ e.beq k j
  beq_sym j k = ground (arith, e.beq_iff j k, e.beq_iff k j)

module _ {ℓ κ} {K : Type ℓ} {V : Type κ} ⦃e : Eq K⦄ where
  pub get-insert :
      (k j : K) (v : V) (m : Dict K V)
      → get j (insert k v m) ≡ (if e.beq k j then some v else get j m)
  unfolding get insert
  get-insert k j v [] = refl
  get-insert k j v ((i, w) ∷ m) =
      ground (arith, e.beq_iff k j, e.beq_iff i k, e.beq_iff i j, get-insert k j v m)

  pub get-insert_self : (k : K) (v : V) (m : Dict K V) → get k (insert k v m) ≡ some v
  get-insert_self k v m = rw (get-insert, beq_refl k)

  pub get-remove :
      (k j : K) (m : Dict K V) → get j (remove k m) ≡ (if e.beq k j then none else get j m)
  unfolding get remove
  get-remove k j [] = ground arith
  get-remove k j ((i, w) ∷ m) =
      ground (arith, e.beq_iff k j, e.beq_iff i k, e.beq_iff i j, get-remove k j m)

  pub get-none_of_fresh : (k : K) (m : Dict K V) → All (λ b. e.beq b.0 k ≡ false) m → get k m ≡ none
  unfolding get
  get-none_of_fresh k [] h = refl
  get-none_of_fresh k ((i, w) ∷ m) (h, hs) = rw h (get-none_of_fresh k m hs)

  -- With distinct keys, `retain` keeps an entry exactly when the test passes on it.
  pub get-retain :
      (p : K → V → Bool) (k : K) (m : Dict K V)
      → Nodup m
      → get k (retain p m) ≡ and_then (get k m) (λ v. if p k v then some v else none)
  unfolding get retain
  get-retain p k [] h = refl
  get-retain p k ((i, w) ∷ m) (fresh, h) = elim (Bool-cases (e.beq i k)) [
    | inl same ↦
        let at : i ≡ k = (e.beq_iff i k).0 same in
        let gone : get k m ≡ none =
          get-none_of_fresh k m (subst (λ x. All (λ b. e.beq b.0 x ≡ false) m) at fresh) in
        rw (same, at) (ground (arith, get-retain p k m h, beq_refl k))
    | inr other ↦ ground (arith, get-retain p k m h)
  ]

  All-insert {μ} :
      (P : K × V → Type μ) (k : K) (v : V) (m : Dict K V)
      → P (k, v)
      → All P m
      → All P (insert k v m)
  unfolding insert
  All-insert P k v [] p h = (p, tt)
  All-insert P k v ((i, w) ∷ m) p (h, hs) = elim (Bool-cases (e.beq i k)) [
    | inl same ↦ rw same (p, hs)
    | inr other ↦ rw other (h, All-insert P k v m p hs)
  ]

  All-remove {μ} : (P : K × V → Type μ) (k : K) (m : Dict K V) → All P m → All P (remove k m)
  unfolding remove
  All-remove P k [] h = tt
  All-remove P k ((i, w) ∷ m) (h, hs) = elim (Bool-cases (e.beq i k)) [
    | inl same ↦ rw same (All-remove P k m hs)
    | inr other ↦ rw other (h, All-remove P k m hs)
  ]

  All-retain {μ} :
      (P : K × V → Type μ) (p : K → V → Bool) (m : Dict K V) → All P m → All P (retain p m)
  unfolding retain
  All-retain P p [] h = tt
  All-retain P p ((i, w) ∷ m) (h, hs) = elim (Bool-cases (p i w)) [
    | inl kept ↦ rw kept (h, All-retain P p m hs)
    | inr gone ↦ rw gone (All-retain P p m hs)
  ]

  pub insert-Nodup : (k : K) (v : V) (m : Dict K V) → Nodup m → Nodup (insert k v m)
  unfolding insert
  insert-Nodup k v [] h = (tt, tt)
  insert-Nodup k v ((i, w) ∷ m) (fresh, h) = elim (Bool-cases (e.beq i k)) [
    | inl same ↦
        let at : i ≡ k = (e.beq_iff i k).0 same in
        rw same (subst (λ x. All (λ b. e.beq b.0 x ≡ false) m) at fresh, h)
    | inr other ↦ rw other (
      All-insert (λ b. e.beq b.0 i ≡ false) k v m (beq_sym k i ∙ other) fresh,
      insert-Nodup k v m h,
    )
  ]

  pub remove-Nodup : (k : K) (m : Dict K V) → Nodup m → Nodup (remove k m)
  unfolding remove
  remove-Nodup k [] h = tt
  remove-Nodup k ((i, w) ∷ m) (fresh, h) = elim (Bool-cases (e.beq i k)) [
    | inl same ↦ rw same (remove-Nodup k m h)
    | inr other ↦ rw other (All-remove (λ b. e.beq b.0 i ≡ false) k m fresh, remove-Nodup k m h)
  ]

  pub retain-Nodup : (p : K → V → Bool) (m : Dict K V) → Nodup m → Nodup (retain p m)
  unfolding retain
  retain-Nodup p [] h = tt
  retain-Nodup p ((i, w) ∷ m) (fresh, h) = elim (Bool-cases (p i w)) [
    | inl kept ↦ rw kept (All-retain (λ b. e.beq b.0 i ≡ false) p m fresh, retain-Nodup p m h)
    | inr gone ↦ rw gone (retain-Nodup p m h)
  ]

  pub length-insert :
      (k : K) (v : V) (m : Dict K V)
      → length (insert k v m) ≡ (if contains_key k m then length m else suc (length m))
  unfolding insert contains_key
  length-insert k v [] = refl
  length-insert k v ((i, w) ∷ m) = ground (arith, length-insert k v m)

  pub length-remove : (k : K) (m : Dict K V) → length (remove k m) ≤ length m
  unfolding remove
  length-remove k [] = omega arith
  length-remove k ((i, w) ∷ m) = ground (arith, length-remove k m)

  -- Removing a key that is there makes the map smaller.
  pub length-remove_lt :
      (k : K) (m : Dict K V) → contains_key k m ≡ true → length (remove k m) < length m
  unfolding remove contains_key
  length-remove_lt k [] h = cc
  length-remove_lt k ((i, w) ∷ m) h = ground (arith, length-remove k m, length-remove_lt k m)

  pub length-retain : (p : K → V → Bool) (m : Dict K V) → length (retain p m) ≤ length m
  unfolding retain
  length-retain p [] = omega arith
  length-retain p ((i, w) ∷ m) = ground (arith, length-retain p m)
