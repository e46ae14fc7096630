-- ===== src/AuthServer/FlowTables.antt =====
-- The flows that the auth server shows and checks at its start: `FlowView`, `flow_tables` and
-- `flow_descriptors` of auth-server/src/handlers/viz.rs, and `render` of auth-core/src/flow/mermaid.rs.
pub mod First
pub mod Second
pub mod Descriptors
pub mod Agree
use volta_gateway.Prelude.{List, [], ◌∷◌, ◌++◌, if◌then◌else◌, is_empty, Text, text}
use volta_gateway.AuthCore.Descriptor.{Edge, FlowDescriptor}

pub record FlowView : Type 0 where
  pub name : Text
  pub states : List Text
  pub initial : Text
  pub terminals : List Text
  pub edges : List Edge

abbrev pub edge : (from to label : Text) → Edge
edge from to label = record { from = from; to = to; label = label }

-- No flow declares processors or aliases.
abbrev pub descriptor : FlowView → (external : List Edge) → FlowDescriptor
descriptor f external = record {
  name = f.name;
  states = f.states;
  initial = f.initial;
  terminals = f.terminals;
  edges = f.edges;
  external_edges = external;
  processors = [];
  flow_data_aliases = [];
}

abbrev line_end : Text
line_end = 10 ∷ []

unfoldable pub edge_lines : List Edge → Text
edge_lines [] = []
edge_lines (e ∷ edges) =
    (text "    "
      ++ (e.from
          ++ (text " --> "
              ++ (e.to ++ ((if is_empty e.label then [] else text " : " ++ e.label) ++ line_end)))))
    ++ edge_lines edges

unfoldable pub terminal_lines : List Text → Text
terminal_lines [] = []
terminal_lines (t ∷ terminals) =
    (text "    " ++ (t ++ (text " --> [*]" ++ line_end))) ++ terminal_lines terminals

unfoldable pub render : Text → List Text → List Edge → Text
render initial terminals edges =
    text "stateDiagram-v2"
    ++ (line_end
        ++ (text "    [*] --> "
            ++ (initial ++ (line_end ++ (edge_lines edges ++ terminal_lines terminals)))))
