-- ===== src/Gateway/Plugins/Laws.antt =====
-- What a request that the plugins let through has, and what the plugins see of it.
use volta_gateway.Prelude.{
  ◌≡◌, refl, inl, inr, subst, true, Option, none, List, [], ◌∷◌, arith, or_else, Text, text,
  text_eq, text_eq_iff, text_is_eq, starts_with, Bool-cases, Option-cases,
}
use volta_gateway.Prelude.Dict.{Dict, get, insert, Nodup}
use volta_gateway.Prelude.Dict.Laws.{get-insert, get-none_of_fresh}
use volta_gateway.Gateway.Plugins.{insert_all}
use volta_gateway.Gateway.Plugins.Manager.{client_headers, plugin_headers}

get-insert_all :
    (k : Text) (more m : Dict Text Text)
    → Nodup more
    → get k (insert_all more m) ≡ or_else (get k more) (get k m)
unfolding insert_all get
get-insert_all k [] m once = refl
get-insert_all k ((j, v) ∷ more) m (fresh, once) =
    let rest = get-insert_all k more (insert j v m) once in
    elim (Bool-cases (text_eq j k)) [
      | inl same ↦
          let at : j ≡ k = (text_eq_iff j k).0 same in
          let absent : get k more ≡ none =
            subst (λ x. get x more ≡ none) at (get-none_of_fresh j more fresh) in
          ground (arith, get-insert j k v m)
      | inr other ↦ ground (arith, get-insert j k v m)
    ]

module _ (to_str : Text → Option Text) where
  client_headers-volta :
      (k : Text) (headers : List (Text × Text)) (m : Dict Text Text)
      → starts_with (text "x-volta-") k ≡ true
      → get k (client_headers to_str headers m) ≡ get k m
  unfolding client_headers
  client_headers-volta k [] m h = refl
  client_headers-volta k ((j, v) ∷ headers) m h =
      elim (Bool-cases (starts_with (text "x-volta-") j)) [
        | inl dropped ↦ ground (arith, client_headers-volta k headers m h)
        | inr kept ↦ elim (Option-cases (to_str v)) [
          | inl unread ↦ ground (arith, client_headers-volta k headers m h)
          | inr (s, read) ↦ ground (
            arith,
            client_headers-volta k headers (insert j s m) h,
            get-insert j k s m,
            text_eq_iff j k,
          )
        ]
      ]

  -- Under a name that begins with x-volta- a plugin sees what the auth server answered, whatever the
  -- client sent, if the answer has each name once.
  pub plugin_headers-volta :
      (k : Text) (headers : List (Text × Text)) (volta_headers : Dict Text Text)
      → starts_with (text "x-volta-") k ≡ true
      → Nodup volta_headers
      → get k (plugin_headers to_str headers volta_headers) ≡ get k volta_headers
  unfolding plugin_headers get
  plugin_headers-volta k headers volta_headers h once = ground (
    arith,
    get-insert_all k volta_headers (client_headers to_str headers []) once,
    client_headers-volta k headers [] h,
    Option-cases (get k volta_headers),
  )
