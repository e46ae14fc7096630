-- ===== src/Tests/Overlay.antt =====
-- The configuration overlay on a small base.
use volta_gateway.Prelude.{
  ◌≡◌, ◌⊎◌, refl, true, false, Option, none, some, List, [], ◌∷◌, Text, text, text_eq,
}
use volta_gateway.Gateway.Overlay
use volta_gateway.Gateway.Overlay.{
  Value, members_of, null, string, object, empty, member, get_member, put_member, remove_member,
  deep_merge, merge_members, ApplyResult, classify_patch, classify_members, ConfigStore, Refusal,
  accepted, refused, build_effective, effective_config, validate_patch, apply_patch,
}
use volta_gateway.Gateway.Overlay.Merge
use volta_gateway.Gateway.Overlay.Merge.{get_member-deep_merge}
use volta_gateway.Gateway.Overlay.Laws.{
  patch_call, clear_call, reload_call, run, IsValid, apply_patch_cases, run-IsValid,
  apply_patch-null,
}

-- A configuration is the JSON itself, and every one passes.
abbrev read_value : Value → Option Value
read_value v = some v

abbrev no_errors : Value → Option (List Text)
no_errors v = none

abbrev pages : Text → Value
pages dir = object (member (text "error_pages_dir") (string dir) empty)

abbrev started : ConfigStore
started = record { base = pages (text "/a"); overlay = object empty; file = object empty }

started-IsValid : IsValid read_value no_errors started
unfolding effective_config build_effective
started-IsValid = (refl, (deep_merge started.base started.overlay, refl, refl))

-- The patch is merged over the base.
patched :
    (apply_patch read_value no_errors true (pages (text "/b")) started).1
    ≡ accepted (
      pages (text "/b"),
      record { hot_applied = text "error_pages_dir" ∷ []; requires_restart = [] },
    )
unfolding apply_patch Overlay.build_valid build_effective deep_merge merge_members get_member
    put_member classify_patch classify_members text_eq
patched = refl

apply_patch_cases_example :
    ((r : Refusal) × (apply_patch read_value no_errors true (pages (text "/b")) started
        ≡ (started, refused r)))
    ⊎ ((cfg : Value) × (t : ConfigStore) × (apply_patch read_value no_errors true
            (pages (text "/b"))
            started
          ≡ (t, accepted (cfg, classify_patch (pages (text "/b")))))
        × (validate_patch read_value no_errors (pages (text "/b")) started
            ≡ accepted (cfg, classify_patch (pages (text "/b"))))
        × (true ≡ true)
        × (effective_config read_value no_errors t ≡ some cfg)
        × (no_errors cfg ≡ none)
        × (t.file ≡ t.overlay))
apply_patch_cases_example = apply_patch_cases read_value no_errors true (pages (text "/b")) started

run-IsValid_example : IsValid read_value no_errors (
    run read_value no_errors
      (patch_call true (pages (text "/b")) ∷ clear_call false ∷ reload_call none ∷ [])
      started)
run-IsValid_example =
    run-IsValid read_value no_errors
      (patch_call true (pages (text "/b")) ∷ clear_call false ∷ reload_call none ∷ []) started
      started-IsValid

no_pages : get_member (text "error_pages_dir") empty ≡ none
unfolding get_member
no_pages = refl

apply_patch-null_example :
    (apply_patch read_value no_errors true
      (object (member (text "error_pages_dir") null empty))
      started).0
    ≡ started
apply_patch-null_example =
    apply_patch-null read_value no_errors true (text "error_pages_dir") empty started refl refl
      no_pages

unique :
    Merge.IsUnique
      (member (text "routing") null (member (text "error_pages_dir") (string (text "/b")) empty))
unfolding get_member text_eq
unique = (refl, (refl, tt))

get_member-deep_merge_example :
    get_member (text "error_pages_dir") (
      members_of (
        deep_merge (pages (text "/a")) (
          object (
            member
              (text "routing")
              null
              (member (text "error_pages_dir") (string (text "/b")) empty)))))
    ≡ Merge.patched (get_member (text "error_pages_dir") (members_of (pages (text "/a")))) (
        get_member (text "error_pages_dir") (
          member
            (text "routing")
            null
            (member (text "error_pages_dir") (string (text "/b")) empty)))
get_member-deep_merge_example =
    get_member-deep_merge (text "error_pages_dir") (pages (text "/a"))
      (member (text "routing") null (member (text "error_pages_dir") (string (text "/b")) empty))
      unique

-- Members stand in the order of their keys, whatever order they come in.
sorted_members :
    put_member (text "a") null (put_member (text "b") null empty)
    ≡ put_member (text "b") null (put_member (text "a") null empty)
unfolding put_member Overlay.text_before text_eq
sorted_members = refl
