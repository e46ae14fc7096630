-- ===== src/Gateway/Overlay/Merge.antt =====
-- The merge against the rule of JSON merge patches, member by member.
use volta_gateway.Prelude.{
  ◌≡◌, refl, sym, subst, ap, ap₂, ◌∙◌, inl, inr, Option, none, some, arith, if◌then◌else◌,
  unwrap_or, Text, text_eq, text_eq_iff, Bool-cases,
}
use volta_gateway.Gateway.Overlay.{
  Value, null, is_null, object, Members, empty, member, members_of, get_member, put_member,
  remove_member, deep_merge, merge_members,
}

-- Each key once.
abbrev pub IsUnique : Members → Type 0
IsUnique empty = Unit
IsUnique (member k v m) = (get_member k m ≡ none) × IsUnique m

-- What a patch makes of a member: without an entry it stays, a null deletes it, and any other value
-- is merged into it.
abbrev pub patched : Option Value → Option Value → Option Value
patched old none = old
patched old (some v) = if is_null v then none else some (deep_merge (unwrap_or null old) v)

get_member-put_member :
    (j k : Text) (v : Value) (m : Members)
    → get_member k (put_member j v m) ≡ (if text_eq j k then some v else get_member k m)
unfolding get_member put_member
get_member-put_member j k v empty = refl
get_member-put_member j k v (member i w m) =
    ground (arith, get_member-put_member j k v m, text_eq_iff i j, text_eq_iff i k, text_eq_iff j k)

get_member-remove_member :
    (j k : Text) (m : Members)
    → get_member k (remove_member j m) ≡ (if text_eq j k then none else get_member k m)
unfolding get_member remove_member
get_member-remove_member j k empty = ground arith
get_member-remove_member j k (member i w m) =
    ground
      (arith, get_member-remove_member j k m, text_eq_iff i j, text_eq_iff i k, text_eq_iff j k)

-- One step of the loop.
abbrev after : Text → Value → Members → Members
after j v m =
    if is_null v
    then remove_member j m
    else put_member j (deep_merge (unwrap_or null (get_member j m)) v) m

merge_members-member :
    (j : Text) (v : Value) (patch m : Members)
    → merge_members m (member j v patch) ≡ merge_members (after j v m) patch
unfolding deep_merge merge_members
merge_members-member j v patch m = refl

get_member-after :
    (j k : Text) (v : Value) (m : Members)
    → get_member k (after j v m)
      ≡ (if text_eq j k then patched (get_member j m) (some v) else get_member k m)
get_member-after j k v m = elim (Bool-cases (is_null v)) [
  | inl e ↦ rw e (get_member-remove_member j k m)
  | inr e ↦ rw e (get_member-put_member j k (deep_merge (unwrap_or null (get_member j m)) v) m)
]

get_member-member :
    (j k : Text) (v : Value) (m : Members)
    → get_member k (member j v m) ≡ (if text_eq j k then some v else get_member k m)
unfolding get_member
get_member-member j k v m = refl

get_member-merge_empty :
    (k : Text) (m : Members)
    → get_member k (merge_members m empty) ≡ patched (get_member k m) (get_member k empty)
unfolding merge_members get_member
get_member-merge_empty k m = refl

get_member-merge_members :
    (k : Text) (m patch : Members)
    → IsUnique patch
    → get_member k (merge_members m patch) ≡ patched (get_member k m) (get_member k patch)
get_member-merge_members k m empty h = get_member-merge_empty k m
get_member-merge_members k m (member j v patch) (fresh, h) =
    let step = ap (get_member k) (merge_members-member j v patch m) in
    let rest = get_member-merge_members k (after j v m) patch h in
    step ∙ rest ∙ elim (Bool-cases (text_eq j k)) [
      | inl same ↦
          let e : j ≡ k = (text_eq_iff j k).0 same in
          let gone : get_member k patch ≡ none = subst (λ i. get_member i patch ≡ none) e fresh in
          let now : get_member k (after j v m) ≡ patched (get_member k m) (some v) =
            subst (λ i. get_member k (after j v m) ≡ patched (get_member i m) (some v)) e
              (get_member-after j k v m ∙ rw same refl) in
          let entry : get_member k (member j v patch) ≡ some v =
            get_member-member j k v patch ∙ rw same refl in
          ap (patched (get_member k (after j v m))) gone
          ∙ now
          ∙ ap (patched (get_member k m)) (sym entry)
      | inr other ↦
          let now : get_member k (after j v m) ≡ get_member k m =
            get_member-after j k v m ∙ rw other refl in
          let entry : get_member k (member j v patch) ≡ get_member k patch =
            get_member-member j k v patch ∙ rw other refl in
          ap₂ patched now (sym entry)
    ]

-- A patch that has each key once leaves an object, whose members are as the rule of merge patches
-- says, with those of the base before.
pub get_member-deep_merge :
    (k : Text) (base : Value) (patch : Members)
    → IsUnique patch
    → get_member k (members_of (deep_merge base (object patch)))
      ≡ patched (get_member k (members_of base)) (get_member k patch)
unfolding deep_merge
get_member-deep_merge k base patch h = get_member-merge_members k (members_of base) patch h
