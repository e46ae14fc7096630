-- ===== src/AuthCore/Descriptor/Validate/Laws.antt =====
-- What a flow that the validator accepts has.
use volta_gateway.Prelude.{
  append-nil, report, report_each, report_each-nil, ℕ, ◌≤◌, ◌≡◌, ◌⊎◌, refl, inl, inr, true, false,
  not, some, List, [], ◌∷◌, arith, any, All, In, In-any, All-map, Text, text_is_eq, Bool-cases,
  Option-cases,
}
use volta_gateway.AuthCore.Descriptor.{Edge, FlowDescriptor, contains, bfs_reachable}
use volta_gateway.AuthCore.Descriptor.Reach.{Walk, bfs_reachable-Walk}
use volta_gateway.AuthCore.Descriptor.Validate.External.{external_from, external_errors-nil}
use volta_gateway.AuthCore.Descriptor.Validate.Aliases.{IsConsistent, alias_errors-nil}
use volta_gateway.AuthCore.Descriptor.Validate.{
  FlowError, ok, is_unknown, edge_errors, sanity_errors, reachability_errors, external_errors,
  alias_errors, outgoing_errors, contract_errors, cycle_errors, is_fatal, outcome, collected,
  validate,
}

List-cases {ℓ} :
    {A : Type ℓ} (xs : List A) → (xs ≡ []) ⊎ ((x : A) × (rest : List A) × (xs ≡ x ∷ rest))
List-cases [] = inl refl
List-cases (x ∷ xs) = inr (x, xs, refl)

-- Both ends of each edge are declared.
edge_errors-nil :
    (flow : FlowDescriptor) (edges : List Edge)
    → edge_errors flow edges ≡ []
    → All (λ e. is_unknown flow e ≡ false) edges
unfolding edge_errors
edge_errors-nil flow [] h = tt
edge_errors-nil flow (e ∷ edges) h = elim (Bool-cases (is_unknown flow e)) [
  | inl unknown ↦ absurd (cc (rw unknown at h))
  | inr known ↦
      let declared : contains flow.states e.to ≡ true = ground arith in
      let rest : edge_errors flow edges ≡ [] = rw (known, declared) at h in
      (known, edge_errors-nil flow edges rest)
]

pub record IsWellFormed (flow : FlowDescriptor) : Type 0 where
  pub initial : contains flow.states flow.initial ≡ true
  pub terminals : All (λ t. contains flow.states t ≡ true) flow.terminals
  pub declared : All (λ e. is_unknown flow e ≡ false) flow.edges
  pub reached : All (λ s. Walk flow.edges flow.initial s) flow.states
  pub ends :
      (flow.terminals ≡ []) ⊎ ((t : Text) × In t flow.terminals × Walk flow.edges flow.initial t)
  pub final : All (λ e. contains flow.terminals e.from ≡ false) flow.edges
  pub one_external : (s : Text) → external_from s flow.external_edges ≤ 1
  pub one_class : IsConsistent flow.flow_data_aliases

-- The lists of errors, all empty.
record NoErrors (flow : FlowDescriptor) (reachable : List Text) : Type 0 where
  sanity : sanity_errors flow ≡ []
  reachability : reachability_errors flow reachable ≡ []
  external : external_errors flow ≡ []
  aliases : alias_errors flow.flow_data_aliases [] ≡ []
  outgoing : outgoing_errors flow ≡ []

outcome-ok : (es : List FlowError) → outcome es ≡ ok → es ≡ []
outcome-ok [] h = refl
outcome-ok (e ∷ es) h = cc

collected-NoErrors :
    (flow : FlowDescriptor) (reachable : List Text) (cycles contracts : List FlowError)
    → collected flow reachable cycles contracts ≡ []
    → NoErrors flow reachable
collected-NoErrors flow reachable cycles contracts h =
    let (sanity, a) = append-nil (sanity_errors flow) _ h in
    let (reachability, b) = append-nil (reachability_errors flow reachable) _ a in
    let (_, c) = append-nil cycles _ b in
    let (external, d) = append-nil (external_errors flow) _ c in
    let (_, e) = append-nil contracts _ d in
    let (aliases, outgoing) = append-nil (alias_errors flow.flow_data_aliases []) _ e in
    record {
      sanity = sanity;
      reachability = reachability;
      external = external;
      aliases = aliases;
      outgoing = outgoing;
    }

validate-NoErrors :
    (fuel : ℕ) (flow : FlowDescriptor)
    → validate fuel flow ≡ ok
    → (reachable : List Text) × (bfs_reachable fuel flow ≡ some reachable) × NoErrors flow reachable
unfolding validate
validate-NoErrors fuel flow h = elim (Bool-cases (any is_fatal (sanity_errors flow))) [
  | inl fatal ↦ absurd (ground arith)
  | inr sane ↦ elim (Option-cases (bfs_reachable fuel flow)) [
    | inl lost ↦ absurd (ground arith)
    | inr (reachable, found) ↦ elim (Option-cases (cycle_errors fuel flow)) [
      | inl lost ↦ absurd (ground arith)
      | inr (cycles, c) ↦ elim (Option-cases (contract_errors fuel flow)) [
        | inl lost ↦ absurd (ground arith)
        | inr (contracts, r) ↦ (
          reachable,
          found,
          collected-NoErrors flow reachable cycles contracts
              (outcome-ok (collected flow reachable cycles contracts) (ground arith)),
        )
      ]
    ]
  ]
]

unreachable_end :
    (flow : FlowDescriptor) (reachable : List Text)
    → reachability_errors flow reachable ≡ []
    → (flow.terminals ≡ []) ⊎ (any (λ t. contains reachable t) flow.terminals ≡ true)
unfolding reachability_errors
unreachable_end flow reachable h =
    let (_, ends) =
      append-nil
        (report_each (λ s. not (contains reachable s)) FlowError.unreachable_state flow.states) _
        h in
    elim (List-cases flow.terminals) [ inl empty ↦ inl empty | inr (t, ts, e) ↦ inr (ground arith) ]

-- A flow without errors declares its initial state, its terminals and the ends of its edges, reaches
-- every state and, if it has terminals, one of them, leaves no terminal, has at most one external
-- edge out of each state, and uses each alias for one class.
pub validate-IsWellFormed :
    (fuel : ℕ) (flow : FlowDescriptor) → validate fuel flow ≡ ok → IsWellFormed flow
unfolding sanity_errors reachability_errors outgoing_errors
validate-IsWellFormed fuel flow h =
    let (reachable, found, none_of) = validate-NoErrors fuel flow h in
    let (start, rest) =
      append-nil
        (report (not (contains flow.states flow.initial))
          (FlowError.initial_not_declared flow.initial))
        _ none_of.sanity in
    let (terms, edges) =
      append-nil
        (report_each (λ t. not (contains flow.states t)) FlowError.terminal_not_declared
          flow.terminals)
        _ rest in
    let (all_reached, _) =
      append-nil
        (report_each (λ s. not (contains reachable s)) FlowError.unreachable_state flow.states) _
        none_of.reachability in
    let walk = λ (v : Text). (bfs_reachable-Walk flow fuel reachable v found).0 in
    record {
      initial = ground arith;
      terminals =
          All-map (λ t n. ground arith) flow.terminals (report_each-nil _ _ flow.terminals terms);
      declared = edge_errors-nil flow flow.edges edges;
      reached =
          All-map (λ s n. walk s (ground arith)) flow.states
            (report_each-nil _ _ flow.states all_reached);
      ends = elim (unreachable_end flow reachable none_of.reachability) [
        | inl empty ↦ inl empty
        | inr some_end ↦ let (t, m, e) = In-any _ flow.terminals some_end in inr (t, m, walk t e)
      ];
      final =
          report_each-nil (λ e. contains flow.terminals e.from)
            (λ e. FlowError.terminal_has_outgoing e.from) flow.edges none_of.outgoing;
      one_external = λ s. external_errors-nil flow s none_of.external;
      one_class = alias_errors-nil flow.flow_data_aliases [] none_of.aliases;
    }
