-- ===== src/AuthCore/Descriptor/Cycle.antt =====
-- `find_cycle` of auth-core/src/flow/validate.rs: a depth-first search with a stack of its own. The
-- nodes are taken in the order in which the edges name them, where the source takes the order of a
-- `HashSet`.
pub mod Returns
use volta_gateway.Prelude.{
  ℕ, zero, suc, none, some, List, [], ◌∷◌, ◌++◌, if◌then◌else◌, unwrap_or, get_elem?, Text, text_eq,
  text_is_eq,
}
use volta_gateway.Prelude.Dict.{Dict, get, insert}
use volta_gateway.AuthCore.Descriptor.{Edge, contains, targets}

pub data Color : Type 0 where
  white gray black : Color

-- The frames, the top first, and the path, its last node first.
pub record Dfs : Type 0 where
  pub stack : List (Text × ℕ)
  pub path : List Text
  pub color : Dict Text Color

pub data CycleSearch : Type 0 where
  cycle : List Text → CycleSearch
  finished : Dict Text Color → CycleSearch
  out_of_fuel : CycleSearch

abbrev pub add_node : Text → List Text → List Text
add_node n nodes = if contains nodes n then nodes else nodes ++ n ∷ []

unfoldable pub nodes_of : List Edge → List Text → List Text
nodes_of [] nodes = nodes
nodes_of (e ∷ edges) nodes = nodes_of edges (add_node e.to (add_node e.from nodes))

abbrev pub color_of : Dict Text Color → Text → Color
color_of color n = unwrap_or white (get n color)

unfoldable pub from_first : List Text → Text → List Text → List Text
from_first acc n [] = n ∷ []
from_first acc n (x ∷ path) =
    let later = from_first (x ∷ acc) n path in
    if text_eq x n then (if contains path n then later else x ∷ acc) else later

abbrev pub drop_last_node : List Text → List Text
drop_last_node [] = []
drop_last_node (_ ∷ path) = path

-- The `while` loop, on fuel.
unfoldable pub dfs_loop : List Edge → ℕ → Dfs → CycleSearch
dfs_loop edges zero d = out_of_fuel
dfs_loop edges (suc fuel) d = elim d.stack [
  | [] ↦ finished d.color
  | (cur, i) ∷ rest ↦ elim (get_elem? (targets edges cur) i) [
    | none ↦
        dfs_loop edges fuel
          (record { stack = rest; path = drop_last_node d.path; color = insert cur black d.color })
    | some child ↦ elim (color_of d.color child) [
      | white ↦ dfs_loop edges fuel (record {
        stack = (child, 0) ∷ (cur, suc i) ∷ rest;
        path = child ∷ d.path;
        color = insert child gray d.color;
      })
      | gray ↦ cycle (from_first [] child d.path)
      | black ↦ dfs_loop edges fuel (record d { stack = (cur, suc i) ∷ rest })
    ]
  ]
]

-- The `for` loop over the nodes.
unfoldable pub search_from : List Edge → ℕ → List Text → Dict Text Color → CycleSearch
search_from edges fuel [] color = finished color
search_from edges fuel (start ∷ nodes) color = elim (color_of color start) [
  | white ↦
      elim (dfs_loop edges fuel
        (record { stack = (start, 0) ∷ []; path = start ∷ []; color = insert start gray color })) [
          | finished color' ↦ search_from edges fuel nodes color'
          | cycle path ↦ cycle path
          | out_of_fuel ↦ out_of_fuel
        ]
  | _ ↦ search_from edges fuel nodes color
]

unfoldable pub all_white : List Text → Dict Text Color
all_white [] = []
all_white (n ∷ nodes) = (n, white) ∷ all_white nodes

unfoldable pub find_cycle : ℕ → List Edge → CycleSearch
find_cycle fuel edges =
    let nodes = nodes_of edges [] in search_from edges fuel nodes (all_white nodes)
