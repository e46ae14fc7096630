-- ===== src/AuthCore/Descriptor/Cycle/Returns.antt =====
-- The search for a cycle comes to an end.
use volta_gateway.Prelude.{
  ℕ, zero, suc, ◌+◌, ◌-◌, ◌≤◌, ◌<◌, ◌≡◌, ◌≢◌, ◌⊎◌, refl, sym, subst, inl, inr, Bool, true, false,
  some, List, [], ◌∷◌, ◌++◌, arith, length, get_elem?, if◌then◌else◌, Text, text_eq, text_eq_iff,
  text_eq_refl, text_is_eq, Option-cases,
}
use volta_gateway.Prelude.Dict.{Dict, insert}
use volta_gateway.Prelude.Dict.Laws.{get-insert}
use volta_gateway.AuthCore.Descriptor.{Edge, contains, targets}
use volta_gateway.AuthCore.Descriptor.Cycle.{
  Color, white, gray, black, Dfs, CycleSearch, cycle, finished, out_of_fuel, add_node, nodes_of,
  color_of, from_first, drop_last_node, dfs_loop, search_from, all_white, find_cycle,
}

get_elem-lt : (xs : List Text) (i : ℕ) {x : Text} → get_elem? xs i ≡ some x → i < length xs
get_elem-lt [] i h = cc
get_elem-lt (y ∷ xs) zero h = omega arith
get_elem-lt (y ∷ xs) (suc i) h = omega (arith, get_elem-lt xs i h)

get_elem-contains :
    (xs : List Text) (i : ℕ) (x : Text) → get_elem? xs i ≡ some x → contains xs x ≡ true
get_elem-contains [] i x h = cc
get_elem-contains (y ∷ xs) zero x h = ground (arith, text_eq_iff y x)
get_elem-contains (y ∷ xs) (suc i) x h = ground (arith, get_elem-contains xs i x h)

abbrev is_white : Color → Bool
is_white white = true
is_white _ = false

Color-cases : (c : Color) → (c ≡ white) ⊎ ((c ≡ gray) ⊎ (c ≡ black))
Color-cases white = inl refl
Color-cases gray = inr (inl refl)
Color-cases black = inr (inr refl)

CycleSearch-cases :
    (r : CycleSearch)
    → ((p : List Text) × (r ≡ cycle p))
      ⊎ (((color : Dict Text Color) × (r ≡ finished color)) ⊎ (r ≡ out_of_fuel))
CycleSearch-cases (cycle p) = inl (p, refl)
CycleSearch-cases (finished color) = inr (inl (color, refl))
CycleSearch-cases out_of_fuel = inr (inr refl)

module _ (edges : List Edge) where
  -- The rounds that the frames on the stack, and those of the white nodes, are still good for.
  unfoldable pub stack_work : List (Text × ℕ) → ℕ
  stack_work [] = 0
  stack_work ((n, i) ∷ stack) = suc (length (targets edges n) - i) + stack_work stack

  abbrev node_work : Dict Text Color → Text → ℕ
  node_work color n = if is_white (color_of color n) then suc (length (targets edges n)) else 0

  unfoldable pub white_work : List Text → Dict Text Color → ℕ
  white_work [] color = 0
  white_work (n ∷ nodes) color = node_work color n + white_work nodes color

  insert_work :
      (nodes : List Text) (child : Text) (c : Color) (color : Dict Text Color)
      → is_white c ≡ false
      → white_work nodes (insert child c color) ≤ white_work nodes color
  unfolding white_work
  insert_work [] child c color h = omega arith
  insert_work (n ∷ nodes) child c color h =
      ground (arith, insert_work nodes child c color h, get-insert child n c color)

  insert_work_lt :
      (nodes : List Text) (child : Text) (color : Dict Text Color)
      → contains nodes child ≡ true
      → color_of color child ≡ white
      → suc (length (targets edges child)) + white_work nodes (insert child gray color)
        ≤ white_work nodes color
  unfolding white_work
  insert_work_lt [] child color h w = cc
  insert_work_lt (n ∷ nodes) child color h w = ground (
    arith,
    insert_work_lt nodes child color,
    insert_work nodes child gray color refl,
    get-insert child n gray color,
    text_eq_iff n child,
    text_eq_iff child n,
  )

  -- The search did not run out of fuel, and left the nodes at most `bound` rounds.
  abbrev Ends : List Text → ℕ → CycleSearch → Type 0
  Ends nodes bound (cycle _) = Unit
  Ends nodes bound (finished color) = white_work nodes color ≤ bound
  Ends nodes bound out_of_fuel = ⊥

  module _ (nodes : List Text)
      (closed : (s x : Text) → contains (targets edges s) x ≡ true → contains nodes x ≡ true) where
    dfs_loop-Ends :
        (fuel bound : ℕ) (stack : List (Text × ℕ)) (path : List Text) (color : Dict Text Color)
        → stack_work stack + white_work nodes color < fuel
        → white_work nodes color ≤ bound
        → Ends nodes bound
            (dfs_loop edges fuel (record { stack = stack; path = path; color = color }))
    unfolding dfs_loop stack_work
    dfs_loop-Ends zero bound stack path color enough small = absurd (omega (arith, enough))
    dfs_loop-Ends (suc fuel) bound [] path color enough small = small
    dfs_loop-Ends (suc fuel) bound ((cur, i) ∷ rest) path color enough small =
        elim (Option-cases (get_elem? (targets edges cur) i)) [
          | inl done ↦
              let blackened : Dict Text Color = insert cur black color in
              let less = insert_work nodes cur black color refl in
              let ih =
                dfs_loop-Ends fuel bound rest (drop_last_node path) blackened
                  (omega (arith, less, enough)) (omega (arith, less, small)) in
              let same : dfs_loop edges (suc fuel)
                    (record { stack = (cur, i) ∷ rest; path = path; color = color })
                  ≡ dfs_loop edges fuel
                      (record { stack = rest; path = drop_last_node path; color = blackened }) =
                ground arith in
              subst (Ends nodes bound) (sym same) ih
          | inr (child, at) ↦
              let next = get_elem-lt (targets edges cur) i at in
              elim (Color-cases (color_of color child)) [
                | inl unseen ↦
                    let less =
                      insert_work_lt nodes child color
                        (closed cur child (get_elem-contains (targets edges cur) i child at))
                        unseen in
                    let ih =
                      dfs_loop-Ends fuel bound ((child, 0) ∷ (cur, suc i) ∷ rest) (child ∷ path)
                        (insert child gray color) (omega (arith, less, next, enough))
                        (omega (arith, less, small)) in
                    let same : dfs_loop edges (suc fuel)
                          (record { stack = (cur, i) ∷ rest; path = path; color = color })
                        ≡ dfs_loop edges fuel (record {
                          stack = (child, 0) ∷ (cur, suc i) ∷ rest;
                          path = child ∷ path;
                          color = insert child gray color;
                        }) =
                      ground arith in
                    subst (Ends nodes bound) (sym same) ih
                | inr (inl on_path) ↦
                    let same : dfs_loop edges (suc fuel)
                          (record { stack = (cur, i) ∷ rest; path = path; color = color })
                        ≡ cycle (from_first [] child path) =
                      ground arith in
                    subst (Ends nodes bound) (sym same) tt
                | inr (inr seen) ↦
                    let ih =
                      dfs_loop-Ends fuel bound ((cur, suc i) ∷ rest) path color
                        (omega (arith, next, enough)) small in
                    let same : dfs_loop edges (suc fuel)
                          (record { stack = (cur, i) ∷ rest; path = path; color = color })
                        ≡ dfs_loop edges fuel
                            (record { stack = (cur, suc i) ∷ rest; path = path; color = color }) =
                      ground arith in
                    subst (Ends nodes bound) (sym same) ih
              ]
        ]

    search_from-returns :
        (fuel : ℕ) (starts : List Text) (color : Dict Text Color)
        → ((n : Text) → contains starts n ≡ true → contains nodes n ≡ true)
        → white_work nodes color < fuel
        → search_from edges fuel starts color ≢ out_of_fuel
    unfolding search_from stack_work
    search_from-returns fuel [] color known enough = cc
    search_from-returns fuel (start ∷ starts) color known enough =
        let later : (n : Text) → contains starts n ≡ true → contains nodes n ≡ true =
          λ n h. known n (ground (arith, h)) in
        let coloured : Dict Text Color = insert start gray color in
        let first : Dfs = record { stack = (start, 0) ∷ []; path = start ∷ []; color = coloured } in
        let skipped = search_from-returns fuel starts color later enough in
        elim (Color-cases (color_of color start)) [
          | inl unseen ↦
              let less =
                insert_work_lt nodes start color (known start (ground (arith, text_eq_refl start)))
                  unseen in
              let ends =
                dfs_loop-Ends fuel (white_work nodes color) ((start, 0) ∷ []) (start ∷ []) coloured
                  (omega (arith, less, enough)) (omega (arith, less)) in
              elim (CycleSearch-cases (dfs_loop edges fuel first)) [
                | inl (p, found) ↦ ground arith
                | inr (inl (color', done)) ↦
                    let small : white_work nodes color' ≤ white_work nodes color =
                      subst (Ends nodes (white_work nodes color)) done ends in
                    let rest =
                      search_from-returns fuel starts color' later (omega (arith, small, enough)) in
                    ground arith
                | inr (inr never) ↦ absurd (subst (Ends nodes (white_work nodes color)) never ends)
              ]
          | inr (inl other) ↦ ground arith
          | inr (inr other) ↦ ground arith
        ]

contains-append_one :
    (xs : List Text) (n x : Text)
    → contains (xs ++ n ∷ []) x ≡ (if contains xs x then true else text_eq n x)
contains-append_one [] n x = ground arith
contains-append_one (y ∷ xs) n x = ground (arith, contains-append_one xs n x)

contains-add_node_kept :
    (n : Text) (nodes : List Text) (x : Text)
    → contains nodes x ≡ true
    → contains (add_node n nodes) x ≡ true
contains-add_node_kept n nodes x h = ground (arith, contains-append_one nodes n x)

contains-add_node : (n : Text) (nodes : List Text) → contains (add_node n nodes) n ≡ true
contains-add_node n nodes = ground (arith, contains-append_one nodes n n, text_eq_refl n)

contains-nodes_of_kept :
    (edges : List Edge) (nodes : List Text) (x : Text)
    → contains nodes x ≡ true
    → contains (nodes_of edges nodes) x ≡ true
unfolding nodes_of
contains-nodes_of_kept [] nodes x h = h
contains-nodes_of_kept (e ∷ edges) nodes x h =
    contains-nodes_of_kept edges (add_node e.to (add_node e.from nodes)) x (
      contains-add_node_kept e.to (add_node e.from nodes) x
        (contains-add_node_kept e.from nodes x h))

-- Every state that an edge leads to is among the nodes.
contains-nodes_of :
    (edges : List Edge) (nodes : List Text) (s x : Text)
    → contains (targets edges s) x ≡ true
    → contains (nodes_of edges nodes) x ≡ true
unfolding nodes_of targets
contains-nodes_of [] nodes s x h = cc
contains-nodes_of (e ∷ edges) nodes s x h =
    let known = contains-add_node e.to (add_node e.from nodes) in
    let kept = contains-nodes_of_kept edges (add_node e.to (add_node e.from nodes)) e.to known in
    ground (
      arith,
      contains-nodes_of edges (add_node e.to (add_node e.from nodes)) s x,
      text_eq_iff e.to x,
      kept,
    )

-- A round for every node, and one for every edge out of it.
unfoldable pub rounds : List Edge → List Text → ℕ
rounds edges [] = 0
rounds edges (n ∷ nodes) = suc (length (targets edges n)) + rounds edges nodes

white_work-le :
    (edges : List Edge) (nodes : List Text) (color : Dict Text Color)
    → white_work edges nodes color ≤ rounds edges nodes
unfolding white_work rounds
white_work-le edges [] color = omega arith
white_work-le edges (n ∷ nodes) color = ground (arith, white_work-le edges nodes color)

-- On more fuel than there are nodes and edges out of them, the search for a cycle does not run out
-- of fuel: it says that there is a cycle, or that there is none.
pub find_cycle-returns :
    (fuel : ℕ) (edges : List Edge)
    → rounds edges (nodes_of edges []) < fuel
    → find_cycle fuel edges ≢ out_of_fuel
unfolding find_cycle
find_cycle-returns fuel edges enough =
    let nodes = nodes_of edges [] in
    let less = white_work-le edges nodes (all_white nodes) in
    search_from-returns edges nodes (contains-nodes_of edges []) fuel nodes (all_white nodes)
      (λ n h. h) (omega (arith, less, enough))
