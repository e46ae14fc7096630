-- ===== src/AuthCore/Policy/Laws.antt =====
-- What the role checks of the policy engine guarantee.
use volta_gateway.Prelude.{
  ℕ, zero, suc, ◌≤◌, ◌<◌, ◌≡◌, ◌↔◌, refl, inl, inr, Bool, true, false, none, some, List, [], ◌∷◌,
  arith, leb, any, Bool-cases, Text, text_eq, text_eq_iff, u64_max, In, In-any, any-In, length, All,
  All-In, ◌∙◌, sym, ◌+◌, ◌-◌, ◌++◌,
}
use mathlib.Core.Path.{subst}
use native.Mathlib.Nat.{zero-add, suc-add}
use volta_gateway.Prelude.Dict.{get}
use volta_gateway.AuthCore.Policy.{
  owner_added, admin_added, operator_added, member_added, owner_permissions, admin_permissions,
  operator_permissions, member_permissions, viewer_permissions, PolicyEngine, allow, default_policy,
  contains, position, can, rank, is_at_least, is_known_role, enforce_min_role,
}

-- A role that the hierarchy lists has its position below the length, and no other role has one.
position-known :
    (x : Text) (xs : List Text)
    → contains x xs ≡ true
    → (i : ℕ) × (position x xs ≡ some i) × (i < length xs)
unfolding position
position-known x [] h = cc
position-known x (y ∷ ys) h = elim (Bool-cases (text_eq y x)) [
  | inl same ↦ (0, ground arith, omega arith)
  | inr other ↦
      let (i, at, lt) = position-known x ys (ground arith) in (suc i, ground arith, omega arith)
]

position-unknown : (x : Text) (xs : List Text) → contains x xs ≡ false → position x xs ≡ none
unfolding position
position-unknown x [] h = refl
position-unknown x (y ∷ ys) h = ground (arith, position-unknown x ys)

-- At least one listed role is enough, and an unknown requirement admits nobody.
pub enforce_min_role_iff :
    (engine : PolicyEngine) (roles : List Text) (min_role : Text)
    → (enforce_min_role engine roles min_role ≡ allow) ↔ (
        (is_known_role engine min_role ≡ true)
        × ((r : Text) × In r roles × (rank engine r ≤ rank engine min_role)))
unfolding enforce_min_role is_at_least
enforce_min_role_iff engine roles min_role = (
  λ h.
      let reaches : any (λ r. leb (rank engine r) (rank engine min_role)) roles ≡ true =
        ground arith in
      let (r, listed, q) = In-any _ roles reaches in (ground arith, (r, listed, ground arith)),
  λ (known, reached).
      let (r, listed, q) = reached in
      let reaches : any (λ r. leb (rank engine r) (rank engine min_role)) roles ≡ true =
        any-In (λ r. leb (rank engine r) (rank engine min_role)) listed (ground arith) in
      ground arith,
)

-- A role outside a hierarchy that is no longer than the largest index never reaches a known one.
pub unknown_role_denied :
    (engine : PolicyEngine) (a b : Text)
    → length engine.hierarchy ≤ u64_max
    → is_known_role engine a ≡ false
    → is_known_role engine b ≡ true
    → is_at_least engine a b ≡ false
unfolding is_at_least is_known_role rank
unknown_role_denied engine a b small ha hb =
    let (i, at, lt) = position-known b engine.hierarchy hb in
    ground (arith, position-unknown a engine.hierarchy ha)

any-append : (p : Text → Bool) (xs ys : List Text) → any p xs ≡ true → any p (xs ++ ys) ≡ true
any-append p [] ys h = cc
any-append p (x ∷ xs) ys h = ground (arith, any-append p xs ys)

-- The permissions by rank, from OWNER down.
abbrev granted : ℕ → List Text
granted zero = owner_permissions
granted (suc zero) = admin_permissions
granted (suc (suc zero)) = operator_permissions
granted (suc (suc (suc zero))) = member_permissions
granted (suc (suc (suc (suc n)))) = viewer_permissions

granted-suc :
    (i : ℕ) (p : Text) → contains p (granted (suc i)) ≡ true → contains p (granted i) ≡ true
granted-suc zero p h = any-append (λ y. text_eq y p) admin_permissions owner_added h
granted-suc (suc zero) p h = any-append (λ y. text_eq y p) operator_permissions admin_added h
granted-suc (suc (suc zero)) p h = any-append (λ y. text_eq y p) member_permissions operator_added h
granted-suc (suc (suc (suc zero))) p h =
    any-append (λ y. text_eq y p) viewer_permissions member_added h
granted-suc (suc (suc (suc (suc n)))) p h = h

granted_mono :
    (d i : ℕ) (p : Text) → contains p (granted (d + i)) ≡ true → contains p (granted i) ≡ true
granted_mono zero i p h = rw zero-add at h
granted_mono (suc d) i p h = granted_mono d i p (granted-suc (d + i) p (rw suc-add at h))

abbrev HasRankPermissions : Text → Type 0
HasRankPermissions r =
    (p : Text) → can default_policy r p ≡ contains p (granted (rank default_policy r))

known-HasRankPermissions : (r : Text) → is_known_role default_policy r ≡ true → HasRankPermissions r
unfolding is_known_role
known-HasRankPermissions r h =
    let (y, listed, same) = In-any (λ y. text_eq y r) default_policy.hierarchy h in
    subst HasRankPermissions ((text_eq_iff y r).0 same) (All-In HasRankPermissions listed each)
  where
    each : All HasRankPermissions default_policy.hierarchy
    each =
        unfold default_policy can rank get position text_eq in
        (λ p. refl, (λ p. refl, (λ p. refl, (λ p. refl, (λ p. refl, tt)))))

-- In the default policy a known role has every permission of a known role that is not above it.
pub is_at_least-can :
    (a b permission : Text)
    → is_known_role default_policy a ≡ true
    → is_known_role default_policy b ≡ true
    → is_at_least default_policy a b ≡ true
    → can default_policy b permission ≡ true
    → can default_policy a permission ≡ true
unfolding is_at_least
is_at_least-can a b permission ha hb h p =
    let below : rank default_policy a ≤ rank default_policy b = ground arith in
    let split : rank default_policy b
        ≡ (rank default_policy b - rank default_policy a) + rank default_policy a =
      omega arith in
    let held = sym (known-HasRankPermissions b hb permission) ∙ p in
    known-HasRankPermissions a ha permission
    ∙ granted_mono (rank default_policy b - rank default_policy a) (rank default_policy a)
        permission (subst (λ n. contains permission (granted n) ≡ true) split held)
