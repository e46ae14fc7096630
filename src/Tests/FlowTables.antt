-- ===== src/Tests/FlowTables.antt =====
-- The tables of the flows under the validator, and the search for a cycle.
use volta_gateway.Prelude.{
  ◌≡◌, ◌≢◌, ◌<◌, refl, All, report_each, List, [], ◌∷◌, arith, text, text_eq,
}
use volta_gateway.AuthCore.Descriptor.{Edge, targets, bfs_loop, bfs_reachable, push_unseen}
use volta_gateway.AuthCore.Descriptor.Cycle.{
  nodes_of, find_cycle, search_from, dfs_loop, out_of_fuel, cycle,
}
use volta_gateway.AuthCore.Descriptor.Cycle.Returns.{rounds, find_cycle-returns}
use volta_gateway.AuthServer.FlowTables.{edge}
use volta_gateway.AuthServer.FlowTables.Descriptors.{flow_descriptors}
use volta_gateway.AuthCore.Descriptor.Validate
use volta_gateway.AuthCore.Descriptor.Cycle
use volta_gateway.AuthCore.Descriptor.Validate.{ok, validate}
use volta_gateway.Prelude.Dict.{get, insert}

abbrev ring : List Edge
ring = edge (text "a") (text "b") [] ∷ edge (text "b") (text "a") [] ∷ []

enough : rounds ring (nodes_of ring []) < 5
unfolding rounds nodes_of targets text_eq
enough = omega arith

find_cycle-returns_example : find_cycle 5 ring ≢ out_of_fuel
find_cycle-returns_example = find_cycle-returns 5 ring enough

-- Every flow that the server describes passes its checks.
described : All (λ d. validate 64 d ≡ ok) flow_descriptors
unfolding flow_descriptors validate Validate.sanity_errors report_each Validate.edge_errors
    bfs_reachable bfs_loop push_unseen targets Validate.cycle_errors Validate.internal_edges
    find_cycle search_from dfs_loop nodes_of Cycle.all_white Validate.contract_errors
    Validate.reachability_errors Validate.external_errors Validate.count_external
    Validate.alias_errors Validate.outgoing_errors text_eq get insert Validate.propagate
    Validate.check_requires_produces Validate.check_state Validate.contract_loop Validate.proc_map
described = (refl, (refl, (refl, (refl, (refl, (refl, (refl, (refl, (refl, (refl, tt))))))))))
