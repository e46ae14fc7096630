-- ===== src/Gateway/Overlay/Laws.antt =====
-- A store in use has a configuration that builds and passes its checks, and the overlay in its file.
use volta_gateway.Prelude.{
  ◌≡◌, ◌⊎◌, refl, sym, subst, ap, inl, inr, Bool, true, Option, none, some, List, [], ◌∷◌, arith,
  Text, Bool-cases, Option-cases,
}
use volta_gateway.Gateway.Overlay.{
  Value, null, object, Members, empty, member, get_member, remove_member, deep_merge, merge_members,
  classify_patch, ConfigStore, Refusal, unbuildable, unwritten, invalid, accepted, refused,
  build_effective, effective_config, build_valid, validate_patch, apply_patch, clear_overlay,
  reload,
}

-- The calls that may change the store, each with what the file system answers.
pub data Call : Type 0 where
  patch_call : Bool → Value → Call
  clear_call : Bool → Call
  reload_call : Option Value → Call

remove_member-absent : (k : Text) (m : Members) → get_member k m ≡ none → remove_member k m ≡ m
unfolding get_member remove_member
remove_member-absent k empty h = refl
remove_member-absent k (member j v m) h = ground (arith, remove_member-absent k m)

-- A patch that deletes a key which the overlay lacks leaves the overlay as it is.
deep_merge-null :
    (k : Text) (m : Members)
    → get_member k m ≡ none
    → deep_merge (object m) (object (member k null empty)) ≡ object m
unfolding deep_merge merge_members
deep_merge-null k m absent = ap object (remove_member-absent k m absent)

module _ {Config : Type 0} (from_value : Value → Option Config)
    (check : Config → Option (List Text)) where
  unfoldable pub apply : Call → ConfigStore → ConfigStore
  apply (patch_call written patch) s = (apply_patch from_value check written patch s).0
  apply (clear_call written) s = (clear_overlay from_value check written s).0
  apply (reload_call base_file) s = (reload from_value check base_file s).0

  unfoldable pub run : List Call → ConfigStore → ConfigStore
  run [] s = s
  run (c ∷ calls) s = run calls (apply c s)

  -- The configuration builds and passes the checks.
  abbrev Builds : Value → Value → Type 0
  Builds base overlay =
      (cfg : Config) × (build_effective from_value check base overlay ≡ some cfg)
      × (check cfg ≡ none)

  abbrev pub IsValid : ConfigStore → Type 0
  IsValid s =
      (s.file ≡ s.overlay)
      × ((cfg : Config) × (effective_config from_value check s ≡ some cfg) × (check cfg ≡ none))

  build_valid_cases :
      (base overlay : Value)
      → ((r : Refusal) × (build_valid from_value check base overlay ≡ refused r))
        ⊎ ((cfg : Config) × (build_valid from_value check base overlay ≡ accepted cfg)
            × (build_effective from_value check base overlay ≡ some cfg)
            × (check cfg ≡ none))
  unfolding build_valid
  build_valid_cases base overlay =
      elim (Option-cases (build_effective from_value check base overlay)) [
        | inl unbuilt ↦ inl (unbuildable, ground arith)
        | inr (cfg, built) ↦ elim (Option-cases (check cfg)) [
          | inl good ↦ inr (cfg, ground arith, built, good)
          | inr (errors, bad) ↦ inl (invalid errors, ground arith)
        ]
      ]

  -- A patch is refused and changes nothing, or the dry run accepts it as well, with the same answer,
  -- the file is written, and the store then has the configuration of the answer, which passes the
  -- checks.
  pub apply_patch_cases :
      (written : Bool) (patch : Value) (s : ConfigStore)
      → ((r : Refusal) × (apply_patch from_value check written patch s ≡ (s, refused r)))
        ⊎ ((cfg : Config) × (t : ConfigStore) × (apply_patch from_value check written patch s
              ≡ (t, accepted (cfg, classify_patch patch)))
            × (validate_patch from_value check patch s ≡ accepted (cfg, classify_patch patch))
            × (written ≡ true)
            × (effective_config from_value check t ≡ some cfg)
            × (check cfg ≡ none)
            × (t.file ≡ t.overlay))
  unfolding apply_patch validate_patch effective_config
  apply_patch_cases written patch s =
      let candidate = deep_merge s.overlay patch in
      elim (build_valid_cases s.base candidate) [
        | inl (r, e) ↦ inl (r, ground arith)
        | inr (cfg, e, built, good) ↦ elim (Bool-cases written) [
          | inl w ↦ inr (
            cfg,
            record s { overlay = candidate; file = candidate },
            ground arith,
            ground arith,
            w,
            built,
            good,
            refl,
          )
          | inr fails ↦ inl (unwritten, ground arith)
        ]
      ]

  apply-IsValid : (c : Call) (s : ConfigStore) → IsValid s → IsValid (apply c s)
  unfolding apply clear_overlay reload effective_config
  apply-IsValid (patch_call written patch) s v = elim (apply_patch_cases written patch s) [
    | inl (r, e) ↦ subst IsValid (sym (ap (λ x. x.0) e)) v
    | inr (cfg, t, e, _, _, built, good, synced) ↦
        subst IsValid (sym (ap (λ x. x.0) e)) (synced, (cfg, built, good))
  ]
  apply-IsValid (clear_call written) s v = elim (build_valid_cases s.base (object empty)) [
    | inl (r, e) ↦
        let same : (clear_overlay from_value check written s).0 ≡ s = ground arith in
        subst IsValid (sym same) v
    | inr (cfg, e, built, good) ↦ elim (Bool-cases written) [
      | inl w ↦
          let cleared = record s { overlay = object empty; file = object empty } in
          let same : (clear_overlay from_value check written s).0 ≡ cleared = ground arith in
          subst IsValid (sym same) (refl, (cfg, built, good))
      | inr fails ↦
          let same : (clear_overlay from_value check written s).0 ≡ s = ground arith in
          subst IsValid (sym same) v
    ]
  ]
  apply-IsValid (reload_call none) s v = v
  apply-IsValid (reload_call (some base)) s v = elim (build_valid_cases base s.overlay) [
    | inl (r, e) ↦
        let same : (reload from_value check (some base) s).0 ≡ s = ground arith in
        subst IsValid (sym same) v
    | inr (cfg, e, built, good) ↦
        let same : (reload from_value check (some base) s).0 ≡ record s { base = base } =
          ground arith in
        subst IsValid (sym same) (v.0, (cfg, built, good))
  ]

  -- Whatever calls come, and whatever the file system answers to them, a store whose configuration
  -- builds and passes its checks and whose overlay is the one in its file stays such a store.
  pub run-IsValid : (calls : List Call) (s : ConfigStore) → IsValid s → IsValid (run calls s)
  unfolding run
  run-IsValid [] s v = v
  run-IsValid (c ∷ calls) s v = run-IsValid calls (apply c s) (apply-IsValid c s v)

  -- A patch that asks to delete a key which the overlay lacks changes nothing, also if the base has the
  -- key, in a store whose overlay is an object and the one in its file.
  pub apply_patch-null :
      (written : Bool) (k : Text) (m : Members) (s : ConfigStore)
      → s.overlay ≡ object m
      → s.file ≡ s.overlay
      → get_member k m ≡ none
      → (apply_patch from_value check written (object (member k null empty)) s).0 ≡ s
  unfolding apply_patch
  apply_patch-null written k m s overlay synced absent =
      let same : deep_merge s.overlay (object (member k null empty)) ≡ s.overlay =
        subst (λ o. deep_merge o (object (member k null empty)) ≡ o) (sym overlay)
          (deep_merge-null k m absent) in
      elim (build_valid_cases s.base (deep_merge s.overlay (object (member k null empty)))) [
        | inl (r, e) ↦ ground arith
        | inr (cfg, e, built, good) ↦ elim (Bool-cases written) [
          | inl w ↦ ground arith
          | inr fails ↦ ground arith
        ]
      ]
