-- ===== src/AuthCore/Descriptor/Validate.antt =====
-- `validate` and its rules: auth-core/src/flow/validate.rs. A set is a list read by membership, and
-- a map is gone through in the order of its list, where the source takes the order of a `HashMap`.
pub mod External
pub mod Aliases
pub mod Laws
use volta_gateway.Prelude.{
  report, report_each, is_empty, ℕ, zero, suc, ◌+◌, Bool, true, false, not, ◌&&◌, ◌||◌, Option,
  none, some, List, [], ◌∷◌, ◌++◌, map, filter, any, all, ltb, if◌then◌else◌, unwrap_or, map_option,
  Text, text_eq, text_is_eq,
}
use volta_gateway.Prelude.Dict.{Dict, get, insert}
use volta_gateway.AuthCore.Descriptor.{
  Edge, ProcessorSpec, FlowDescriptor, contains, targets, bfs_reachable,
}
use volta_gateway.AuthCore.Descriptor.Cycle.{cycle, finished, out_of_fuel, find_cycle}

pub data FlowError : Type 0 where
  initial_not_declared : Text → FlowError
  terminal_not_declared : Text → FlowError
  unknown_edge_state : (from to : Text) → FlowError
  unreachable_state : Text → FlowError
  no_terminal_path : FlowError
  auto_branch_cycle : List Text → FlowError
  multiple_external_edges : Text → FlowError
  unknown_branch_target : Text → FlowError
  requirement_mismatch : Text → List Text → FlowError
  duplicate_alias : (alias first second : Text) → FlowError
  terminal_has_outgoing : Text → FlowError

pub data Checked : Type 0 where
  ok : Checked
  errors : List FlowError → Checked
  diverged : Checked

abbrev pub is_unknown : FlowDescriptor → Edge → Bool
is_unknown flow e = not (contains flow.states e.from) || not (contains flow.states e.to)

unfoldable pub edge_errors : FlowDescriptor → List Edge → List FlowError
edge_errors flow [] = []
edge_errors flow (e ∷ edges) =
    report (is_unknown flow e) (unknown_edge_state e.from e.to)
    ++ (report (not (contains flow.states e.to)) (unknown_branch_target e.to)
        ++ edge_errors flow edges)

unfoldable pub sanity_errors : FlowDescriptor → List FlowError
sanity_errors flow =
    report (not (contains flow.states flow.initial)) (initial_not_declared flow.initial)
    ++ (report_each (λ t. not (contains flow.states t)) terminal_not_declared flow.terminals
        ++ edge_errors flow flow.edges)

abbrev pub is_fatal : FlowError → Bool
is_fatal (initial_not_declared _) = true
is_fatal (unknown_edge_state _ _) = true
is_fatal _ = false

-- Rules 1 and 2.
unfoldable pub reachability_errors : FlowDescriptor → List Text → List FlowError
reachability_errors flow reachable =
    report_each (λ s. not (contains reachable s)) unreachable_state flow.states
    ++ report
        (not (any (λ t. contains reachable t) flow.terminals) && not (is_empty flow.terminals))
        no_terminal_path

abbrev same_edge : Edge → Edge → Bool
same_edge a b = text_eq a.from b.from && text_eq a.to b.to && text_eq a.label b.label

-- The edges of rule 3.
unfoldable pub internal_edges : FlowDescriptor → List Edge
internal_edges flow = filter (λ e. not (any (λ x. same_edge x e) flow.external_edges)) flow.edges

-- Rule 4: the map from states to the number of their external edges.
unfoldable pub count_external : List Edge → Dict Text ℕ → Dict Text ℕ
count_external [] counts = counts
count_external (e ∷ edges) counts =
    count_external edges (insert e.from (suc (unwrap_or 0 (get e.from counts))) counts)

unfoldable pub external_errors : FlowDescriptor → List FlowError
external_errors flow =
    report_each (λ p. ltb 1 p.1) (λ p. multiple_external_edges p.0)
      (count_external flow.external_edges [])

-- Rule 7.
unfoldable pub alias_errors : List (Text × Text) → Dict Text Text → List FlowError
alias_errors [] seen = []
alias_errors ((alias, fqcn) ∷ aliases) seen =
    let known = alias_errors aliases seen in
    let added = alias_errors aliases (insert alias fqcn seen) in
    elim (get alias seen) [
      | none ↦ added
      | some prev ↦ report (not (text_eq prev fqcn)) (duplicate_alias alias prev fqcn) ++ known
    ]

-- `validate_global_aliases`: the aliases of all flows, one after another. The name of the flow that
-- is kept beside a class is never read.
unfoldable pub all_aliases : List FlowDescriptor → List (Text × Text)
all_aliases [] = []
all_aliases (flow ∷ flows) = flow.flow_data_aliases ++ all_aliases flows

unfoldable pub validate_global_aliases : List FlowDescriptor → List FlowError
validate_global_aliases flows = alias_errors (all_aliases flows) []

-- Rule 8.
unfoldable pub outgoing_errors : FlowDescriptor → List FlowError
outgoing_errors flow =
    report_each (λ e. contains flow.terminals e.from) (λ e. terminal_has_outgoing e.from) flow.edges

-- Rule 6: the specifications by state, the last of a state first.
unfoldable pub proc_map : List ProcessorSpec → Dict Text ProcessorSpec → Dict Text ProcessorSpec
proc_map [] m = m
proc_map (p ∷ ps) m = proc_map ps (insert p.state p m)

abbrev produces_of : Option ProcessorSpec → List Text
produces_of none = []
produces_of (some p) = p.produces

abbrev requires_of : Option ProcessorSpec → List Text
requires_of none = []
requires_of (some p) = p.requires

pub record ContractSearch : Type 0 where
  pub visited : Dict Text (List Text)
  pub stack : List (Text × List Text)
  pub reported : List Text
  pub found : List FlowError

abbrev is_superset : List Text → Option (List Text) → Bool
is_superset produced none = false
is_superset produced (some prev) = all (contains prev) produced

-- The loop over the successors.
unfoldable pub propagate : List Text → List Text → ContractSearch → ContractSearch
propagate [] produced c = c
propagate (n ∷ nexts) produced c = propagate nexts produced (
    if is_superset produced (get n c.visited)
    then c
    else record c { visited = insert n produced c.visited; stack = (n, produced) ∷ c.stack })

-- What is reported of a state that was reached with `produced`.
unfoldable pub check_state :
    Option ProcessorSpec → Text → List Text → ContractSearch → ContractSearch
check_state spec state produced c =
    let missing = filter (λ r. not (contains produced r)) (requires_of spec) in
    if not (is_empty missing) && not (contains c.reported state)
    then record c {
      reported = state ∷ c.reported;
      found = c.found ++ requirement_mismatch state missing ∷ [];
    }
    else c

unfoldable pub contract_loop :
    List Edge → Dict Text ProcessorSpec → ℕ → ContractSearch → Option (List FlowError)
contract_loop edges specs zero c = none
contract_loop edges specs (suc fuel) c = elim c.stack [
  | [] ↦ some c.found
  | (state, produced) ∷ rest ↦
      let spec = get state specs in
      contract_loop edges specs fuel (
        propagate (targets edges state) (produced ++ produces_of spec)
          (check_state spec state produced (record c { stack = rest })))
]

unfoldable pub check_requires_produces : ℕ → FlowDescriptor → Option (List FlowError)
check_requires_produces fuel flow =
    let specs = proc_map flow.processors [] in
    contract_loop flow.edges specs fuel (record {
      visited = [];
      stack = (flow.initial, produces_of (get flow.initial specs)) ∷ [];
      reported = [];
      found = [];
    })

unfoldable pub contract_errors : ℕ → FlowDescriptor → Option (List FlowError)
contract_errors fuel flow =
    if is_empty flow.processors then some [] else check_requires_produces fuel flow

unfoldable pub cycle_errors : ℕ → FlowDescriptor → Option (List FlowError)
cycle_errors fuel flow = elim (find_cycle fuel (internal_edges flow)) [
  | cycle path ↦ some (auto_branch_cycle path ∷ [])
  | finished _ ↦ some []
  | out_of_fuel ↦ none
]

abbrev pub outcome : List FlowError → Checked
outcome [] = ok
outcome (e ∷ es) = errors (e ∷ es)

-- The errors in the order of the source.
abbrev pub collected :
    FlowDescriptor → (reachable : List Text) → (cycles contracts : List FlowError) → List FlowError
collected flow reachable cycles contracts =
    sanity_errors flow
    ++ (reachability_errors flow reachable
        ++ (cycles
            ++ (external_errors flow
                ++ (contracts
                    ++ (alias_errors flow.flow_data_aliases [] ++ outgoing_errors flow)))))

-- `fuel` is for each of the three searches.
unfoldable pub validate : ℕ → FlowDescriptor → Checked
validate fuel flow =
    if any is_fatal (sanity_errors flow)
    then errors (sanity_errors flow)
    else elim (bfs_reachable fuel flow) [
      | none ↦ diverged
      | some reachable ↦ elim (cycle_errors fuel flow) [
        | none ↦ diverged
        | some cycles ↦ elim (contract_errors fuel flow) [
          | none ↦ diverged
          | some contracts ↦ outcome (collected flow reachable cycles contracts)
        ]
      ]
    ]
