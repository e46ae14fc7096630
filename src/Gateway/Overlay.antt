-- ===== src/Gateway/Overlay.antt =====
-- The configuration overlay: gateway/src/config_overlay.rs. JSON values and maps are those of the
-- package serde_json; a map keeps its keys in order. Reading a configuration from JSON and checking
-- it are parameters, and whether the file was written is an argument.
pub mod Merge
pub mod Laws
use volta_gateway.Prelude.{
  Bool, true, false, not, ◌&&◌, ◌||◌, Option, none, some, List, [], ◌∷◌, ◌++◌, ltb, ◌==◌,
  if◌then◌else◌, unwrap_or, Text, text, text_eq,
}

mutual
  pub data Value : Type 0 where
    null : Value
    boolean : Bool → Value
    number : Text → Value
    string : Text → Value
    array : Values → Value
    object : Members → Value

  pub data Values : Type 0 where
    nil : Values
    item : Value → Values → Values

  pub data Members : Type 0 where
    empty : Members
    member : Text → Value → Members → Members

abbrev pub is_null : Value → Bool
is_null null = true
is_null _ = false

-- `Map::get`, `Map::insert` and `Map::remove`.
unfoldable pub get_member : Text → Members → Option Value
get_member k empty = none
get_member k (member j v m) = let rest = get_member k m in if text_eq j k then some v else rest

-- The order of `str`, by bytes.
unfoldable pub text_before : Text → Text → Bool
text_before s [] = false
text_before [] (d ∷ t) = true
text_before (c ∷ s) (d ∷ t) =
    let later = text_before s t in if ltb c d then true else if c == d then later else false

-- Members are kept in the order of their keys, as the package's map keeps them.
unfoldable pub put_member : Text → Value → Members → Members
put_member k v empty = member k v empty
put_member k v (member j w m) =
    let rest = put_member k v m in
    if text_eq j k
    then member j v m
    else if text_before k j
    then member k v (member j w m)
    else member j w rest

unfoldable pub remove_member : Text → Members → Members
remove_member k empty = empty
remove_member k (member j w m) =
    let rest = remove_member k m in if text_eq j k then rest else member j w rest

abbrev pub members_of : Value → Members
members_of (object m) = m
members_of _ = empty

unfoldable mutual
  pub deep_merge : Value → Value → Value
  deep_merge base (object patch) = object (merge_members (members_of base) patch)
  deep_merge base null = null
  deep_merge base (boolean b) = boolean b
  deep_merge base (number n) = number n
  deep_merge base (string s) = string s
  deep_merge base (array vs) = array vs

  -- The loop over the members of the patch.
  pub merge_members : Members → Members → Members
  merge_members m empty = m
  merge_members m (member k v patch) =
      let merged = deep_merge (unwrap_or null (get_member k m)) v in
      merge_members (if is_null v then remove_member k m else put_member k merged m) patch

pub record ApplyResult : Type 0 where
  pub hot_applied : List Text
  pub requires_restart : List Text

abbrev pub is_trusted_only : Members → Bool
is_trusted_only empty = true
is_trusted_only (member k _ m) = text_eq k (text "trusted_proxies") && is_trusted_only m

-- Only the trusted proxies of the server are changed.
abbrev pub only_trusted : Value → Bool
only_trusted (object (member k v m)) = is_trusted_only (member k v m)
only_trusted _ = false

abbrev classify_member : Text → Value → ApplyResult → ApplyResult
classify_member k v r =
    if text_eq k (text "routing") || text_eq k (text "error_pages_dir")
    then record r { hot_applied = r.hot_applied ++ k ∷ [] }
    else if text_eq k (text "server") && only_trusted v
    then record r { hot_applied = r.hot_applied ++ text "server.trusted_proxies" ∷ [] }
    else record r { requires_restart = r.requires_restart ++ k ∷ [] }

unfoldable pub classify_members : Members → ApplyResult → ApplyResult
classify_members empty r = r
classify_members (member k v m) r = classify_members m (classify_member k v r)

unfoldable pub classify_patch : Value → ApplyResult
classify_patch patch =
    classify_members (members_of patch) (record { hot_applied = []; requires_restart = [] })

-- `base` and `overlay` in memory, and the overlay that a later load reads from its file.
pub record ConfigStore : Type 0 where
  pub base : Value
  pub overlay : Value
  pub file : Value

-- Why a call is refused.
pub data Refusal : Type 0 where
  unreadable unbuildable unwritten : Refusal
  invalid : List Text → Refusal

pub data Answer (A : Type 0) : Type 0 where
  accepted : A → Answer A
  refused : Refusal → Answer A

module _ {Config : Type 0} (from_value : Value → Option Config)
    (check : Config → Option (List Text)) where
  unfoldable pub build_effective : Value → Value → Option Config
  build_effective base overlay = from_value (deep_merge base overlay)

  -- The store, if the configuration builds.
  unfoldable pub loaded : Value → Value → Option (ConfigStore × Config)
  loaded base overlay = elim (build_effective base overlay) [
    | none ↦ none
    | some cfg ↦ some (record { base = base; overlay = overlay; file = overlay }, cfg)
  ]

  -- `load`, from what the two files hold. The file of the overlay may be missing or empty (`none`), or
  -- hold no JSON (`some none`).
  unfoldable pub load : Option Value → Option (Option Value) → Option (ConfigStore × Config)
  load none overlay_file = none
  load (some base) (some none) = none
  load (some base) none = loaded base (object empty)
  load (some base) (some (some overlay)) = loaded base overlay

  unfoldable pub effective_config : ConfigStore → Option Config
  effective_config s = build_effective s.base s.overlay

  -- Building and checking, which four operations begin with.
  unfoldable pub build_valid : Value → Value → Answer Config
  build_valid base overlay = elim (build_effective base overlay) [
    | none ↦ refused unbuildable
    | some cfg ↦ elim (check cfg) [ none ↦ accepted cfg | some errors ↦ refused (invalid errors) ]
  ]

  unfoldable pub validate_patch : Value → ConfigStore → Answer (Config × ApplyResult)
  validate_patch patch s = elim (build_valid s.base (deep_merge s.overlay patch)) [
    | refused r ↦ refused r
    | accepted cfg ↦ accepted (cfg, classify_patch patch)
  ]

  -- `persist` and the change in memory.
  abbrev commit : {A : Type 0} → (written : Bool) → Value → A → ConfigStore → ConfigStore × Answer A
  commit written overlay answer s =
      if written
      then (record s { overlay = overlay; file = overlay }, accepted answer)
      else (s, refused unwritten)

  unfoldable pub apply_patch :
      (written : Bool) → Value → ConfigStore → ConfigStore × Answer (Config × ApplyResult)
  apply_patch written patch s =
      let candidate = deep_merge s.overlay patch in
      elim (build_valid s.base candidate) [
        | refused r ↦ (s, refused r)
        | accepted cfg ↦ commit written candidate (cfg, classify_patch patch) s
      ]

  unfoldable pub clear_overlay : (written : Bool) → ConfigStore → ConfigStore × Answer Config
  clear_overlay written s = elim (build_valid s.base (object empty)) [
    | refused r ↦ (s, refused r)
    | accepted cfg ↦ commit written (object empty) cfg s
  ]

  -- `reload`, from what the file of the base holds.
  unfoldable pub reload : Option Value → ConfigStore → ConfigStore × Answer Config
  reload base_file s = elim base_file [
    | none ↦ (s, refused unreadable)
    | some base ↦ elim (build_valid base s.overlay) [
      | refused r ↦ (s, refused r)
      | accepted cfg ↦ (record s { base = base }, accepted cfg)
    ]
  ]
