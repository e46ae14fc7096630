-- ===== src/Gateway/Rules/Laws.antt =====
-- The rule that decides a path is the most specific one that matches it.
use mathlib.Core.Path.{subst}
use volta_gateway.Prelude.{
  ◌≤◌, ◌≡◌, ◌↔◌, inl, inr, Bool, true, false, none, some, List, [], ◌∷◌, arith, leb, Bool-cases,
  Option-cases, find, length, Text, All, All-map, All-In_self, In, find-some, find-none,
  find-none_of,
}
use volta_gateway.Gateway.Rules.{
  AuthRule, ResolvedAuth, rule_matches, resolve, insert_rule, sort_rules, resolve_auth_rule,
}

module _ {ℓ} (P : AuthRule → Type ℓ) where
  All-insert_rule : (r : AuthRule) (rs : List AuthRule) → P r → All P rs → All P (insert_rule r rs)
  unfolding insert_rule
  All-insert_rule r [] p h = (p, tt)
  All-insert_rule r (s ∷ rs) p (h, hs) =
      elim (Bool-cases (leb (length s.prefix) (length r.prefix))) [
        | inl e ↦ rw e (p, (h, hs))
        | inr e ↦ rw e (h, All-insert_rule r rs p hs)
      ]

  insert_rule-All : (r : AuthRule) (rs : List AuthRule) → All P (insert_rule r rs) → P r × All P rs
  unfolding insert_rule
  insert_rule-All r [] (p, _) = (p, tt)
  insert_rule-All r (s ∷ rs) h = elim (Bool-cases (leb (length s.prefix) (length r.prefix))) [
    | inl e ↦ (rw e at h)
    | inr e ↦
        let h' : P s × All P (insert_rule r rs) = rw e at h in
        let (p, hs) = insert_rule-All r rs h'.1 in (p, (h'.0, hs))
  ]

  All-sort_rules : (rs : List AuthRule) → All P rs → All P (sort_rules rs)
  unfolding sort_rules
  All-sort_rules [] h = h
  All-sort_rules (r ∷ rs) (h, hs) = All-insert_rule r (sort_rules rs) h (All-sort_rules rs hs)

  sort_rules-All : (rs : List AuthRule) → All P (sort_rules rs) → All P rs
  unfolding sort_rules
  sort_rules-All [] h = h
  sort_rules-All (r ∷ rs) h =
      let (p, hs) = insert_rule-All r (sort_rules rs) h in (p, sort_rules-All rs hs)

abbrev NoLonger : AuthRule → AuthRule → Type 0
NoLonger r s = length s.prefix ≤ length r.prefix

abbrev IsSorted : List AuthRule → Type 0
IsSorted [] = Unit
IsSorted (r ∷ rs) = All (NoLonger r) rs × IsSorted rs

insert_rule-IsSorted :
    (r : AuthRule) (rs : List AuthRule) → IsSorted rs → IsSorted (insert_rule r rs)
unfolding insert_rule
insert_rule-IsSorted r [] h = (tt, tt)
insert_rule-IsSorted r (s ∷ rs) (h, hs) =
    elim (Bool-cases (leb (length s.prefix) (length r.prefix))) [
      | inl e ↦
          let le : NoLonger r s = ground arith in
          rw e ((le, All-map (λ x l. omega arith) rs h), (h, hs))
      | inr e ↦
          rw e (All-insert_rule (NoLonger s) r rs (ground arith) h, insert_rule-IsSorted r rs hs)
    ]

sort_rules-IsSorted : (rs : List AuthRule) → IsSorted (sort_rules rs)
unfolding sort_rules
sort_rules-IsSorted [] = tt
sort_rules-IsSorted (r ∷ rs) = insert_rule-IsSorted r (sort_rules rs) (sort_rules-IsSorted rs)

-- In a sorted list the first rule to pass a test is the longest that passes it.
find-longest :
    (p : AuthRule → Bool) (rs : List AuthRule) {r : AuthRule}
    → IsSorted rs
    → find p rs ≡ some r
    → All (λ s. p s ≡ true → NoLonger r s) rs
find-longest p [] h e = tt
find-longest p (s ∷ rs) {r} (h, hs) e = elim (Bool-cases (p s)) [
  | inl first ↦
      let at : s ≡ r = ground arith in
      subst (λ x. (p s ≡ true → NoLonger x s) × All (λ y. p y ≡ true → NoLonger x y) rs) at
        (λ _. omega arith, All-map (λ y l _. l) rs h)
  | inr later ↦ (λ q. absurd (cc), find-longest p rs {r = r} hs (ground arith))
]

-- A rule of the list that matches the path, and that no longer rule of the list does.
pub record IsMostSpecific (rules : List AuthRule) (path : Text) (rule : AuthRule) : Type 0 where
  pub listed : In rule rules
  pub matching : rule_matches rule path ≡ true
  pub longest : All (λ s. rule_matches s path ≡ true → length s.prefix ≤ length rule.prefix) rules

-- The outcome is that of a most specific rule; there is none exactly when no rule matches.
pub resolve_auth_rule-IsMostSpecific :
    (rules : List AuthRule) (path : Text)
    → ((auth : ResolvedAuth)
        → resolve_auth_rule rules path ≡ some auth
        → (rule : AuthRule) × IsMostSpecific rules path rule × (auth ≡ resolve rule))
      × ((resolve_auth_rule rules path ≡ none) ↔ All (λ r. rule_matches r path ≡ false) rules)
unfolding resolve_auth_rule
resolve_auth_rule-IsMostSpecific rules path = (
  λ auth e. elim (Option-cases (find test (sort_rules rules))) [
    | inl missed ↦ absurd (ground arith)
    | inr (rule, found) ↦
        let (matching, listed) =
          find-some (λ r. In r rules) test (sort_rules rules) found
            (All-sort_rules (λ r. In r rules) rules (All-In_self rules)) in
        (
          rule,
          record {
            listed = listed;
            matching = matching;
            longest =
                sort_rules-All _ rules
                  (find-longest test (sort_rules rules) (sort_rules-IsSorted rules) found);
          },
          ground arith,
        )
  ],
  (
    λ e. sort_rules-All _ rules (find-none test (sort_rules rules) (ground arith)),
    λ h.
        let missed : find test (sort_rules rules) ≡ none =
          find-none_of test (sort_rules rules) (All-sort_rules _ rules h) in
        ground arith,
  ),
)
  where
    test : AuthRule → Bool
    test r = rule_matches r path
