-- ===== src/AuthCore/Descriptor.antt =====
-- Descriptions of flows and their search: `Edge` of auth-core/src/flow/mermaid.rs, and `FlowDescriptor`,
-- `ProcessorSpec` and `bfs_reachable` of auth-core/src/flow/validate.rs.
pub mod Reach
pub mod Cycle
pub mod Validate
use volta_gateway.Prelude.{
  ℕ, zero, suc, Bool, true, false, Option, none, some, List, [], ◌∷◌, map, filter, any,
  if◌then◌else◌, Text, text_eq,
}

pub record Edge : Type 0 where
  pub from : Text
  pub to : Text
  pub label : Text

pub record ProcessorSpec : Type 0 where
  pub state : Text
  pub requires : List Text
  pub produces : List Text

pub record FlowDescriptor : Type 0 where
  pub name : Text
  pub states : List Text
  pub initial : Text
  pub terminals : List Text
  pub edges : List Edge
  pub external_edges : List Edge
  pub processors : List ProcessorSpec
  pub flow_data_aliases : List (Text × Text)

-- `HashSet::contains` and `slice::contains`.
abbrev pub contains : List Text → Text → Bool
contains xs x = any (λ y. text_eq y x) xs

-- The adjacency list of a state, in the order of the edges.
unfoldable pub targets : List Edge → Text → List Text
targets [] s = []
targets (e ∷ edges) s = let rest = targets edges s in if text_eq e.from s then e.to ∷ rest else rest

-- The loop over the successors. The top of the stack is its head.
unfoldable pub push_unseen : List Text → List Text → List Text → List Text
push_unseen seen [] stack = stack
push_unseen seen (n ∷ nexts) stack =
    push_unseen seen nexts (if contains seen n then stack else n ∷ stack)

-- The `while` loop, on fuel: `none` means that the fuel ran out.
unfoldable pub bfs_loop : List Edge → ℕ → List Text → List Text → Option (List Text)
bfs_loop edges fuel seen [] = some seen
bfs_loop edges zero seen (s ∷ stack) = none
bfs_loop edges (suc fuel) seen (s ∷ stack) =
    let skipped = bfs_loop edges fuel seen stack in
    let visited = bfs_loop edges fuel (s ∷ seen) (push_unseen (s ∷ seen) (targets edges s) stack) in
    if contains seen s then skipped else visited

unfoldable pub bfs_reachable : ℕ → FlowDescriptor → Option (List Text)
bfs_reachable fuel flow = bfs_loop flow.edges fuel [] (flow.initial ∷ [])
