-- ===== src/AuthCore/Descriptor/Reach.antt =====
-- The search finds exactly the states that a walk from the initial state reaches, and it ends.
use volta_gateway.Prelude.{
  ◌↔◌, ℕ, zero, suc, ◌+◌, ◌≤◌, ◌≡◌, ◌↔◌, ◌⊎◌, refl, sym, subst, inl, inr, true, false, some, List,
  [], ◌∷◌, arith, length, if◌then◌else◌, Text, text_eq, text_eq_iff, text_eq_refl, Bool-cases,
}
use volta_gateway.AuthCore.Descriptor.{
  Edge, FlowDescriptor, contains, targets, push_unseen, bfs_loop, bfs_reachable,
}

-- The walks along edges from `s`.
pub data Walk (edges : List Edge) (s : Text) : Text → Type 0 where
  here : Walk edges s s
  next : {u v : Text} → Walk edges s u → contains (targets edges u) v ≡ true → Walk edges s v

-- The edges that leave states not yet seen.
remaining : List Text → List Edge → ℕ
remaining seen [] = 0
remaining seen (e ∷ edges) =
    if contains seen e.from then remaining seen edges else suc (remaining seen edges)

remaining-le : (seen : List Text) (edges : List Edge) → remaining seen edges ≤ length edges
unfolding remaining
remaining-le seen [] = omega arith
remaining-le seen (e ∷ edges) = ground (arith, remaining-le seen edges)

remaining-cons :
    (seen : List Text) (s : Text) (edges : List Edge)
    → contains seen s ≡ false
    → remaining (s ∷ seen) edges + length (targets edges s) ≤ remaining seen edges
unfolding remaining targets
remaining-cons seen s [] h = omega arith
remaining-cons seen s (e ∷ edges) h =
    ground (arith, remaining-cons seen s edges h, text_eq_iff e.from s, text_eq_iff s e.from)

length-push_unseen :
    (seen nexts stack : List Text)
    → length (push_unseen seen nexts stack) ≤ length nexts + length stack
unfolding push_unseen
length-push_unseen seen [] stack = omega arith
length-push_unseen seen (n ∷ nexts) stack =
    ground (arith, length-push_unseen seen nexts (if contains seen n then stack else n ∷ stack))

-- Each round takes from the stack, or from the edges that are left, more than it adds.
bfs_loop-returns :
    (edges : List Edge) (fuel : ℕ) (seen stack : List Text)
    → length stack + remaining seen edges ≤ fuel
    → (out : List Text) × (bfs_loop edges fuel seen stack ≡ some out)
unfolding bfs_loop
bfs_loop-returns edges zero seen [] h = (seen, refl)
bfs_loop-returns edges (suc fuel) seen [] h = (seen, refl)
bfs_loop-returns edges zero seen (s ∷ stack) h = absurd (omega arith)
bfs_loop-returns edges (suc fuel) seen (s ∷ stack) h = elim (Bool-cases (contains seen s)) [
  | inl old ↦ rw old (bfs_loop-returns edges fuel seen stack (omega arith))
  | inr new ↦
      let bound : length (push_unseen (s ∷ seen) (targets edges s) stack)
            + remaining (s ∷ seen) edges
          ≤ fuel =
        omega (
          arith,
          length-push_unseen (s ∷ seen) (targets edges s) stack,
          remaining-cons seen s edges new,
        ) in
      rw new (
        bfs_loop-returns edges fuel (s ∷ seen) (push_unseen (s ∷ seen) (targets edges s) stack)
          bound)
]

-- What is pushed: the unseen successors, on what was there.
contains-push_unseen :
    (seen nexts stack : List Text) (v : Text)
    → (contains (push_unseen seen nexts stack) v ≡ true)
      ↔ ((contains stack v ≡ true) ⊎ ((contains nexts v ≡ true) × (contains seen v ≡ false)))
unfolding push_unseen
contains-push_unseen seen [] stack v = ground arith
contains-push_unseen seen (n ∷ nexts) stack v = ground (
  arith,
  contains-push_unseen seen nexts (if contains seen n then stack else n ∷ stack) v,
  text_eq_iff n v,
)

module _ (edges : List Edge) (initial : Text) where
  record Inv (seen stack : List Text) : Type 0 where
    source : (contains seen initial ≡ true) ⊎ (contains stack initial ≡ true)
    sound_seen : (v : Text) → contains seen v ≡ true → Walk edges initial v
    sound_stack : (v : Text) → contains stack v ≡ true → Walk edges initial v
    closed :
        (u v : Text)
        → contains seen u ≡ true
        → contains (targets edges u) v ≡ true
        → (contains seen v ≡ true) ⊎ (contains stack v ≡ true)

  Inv-skip :
      (seen stack : List Text) (s : Text)
      → contains seen s ≡ true
      → Inv seen (s ∷ stack)
      → Inv seen stack
  Inv-skip seen stack s old h = record {
    source = ground (arith, text_eq_iff s initial);
    sound_seen = h.sound_seen;
    sound_stack = λ v m. h.sound_stack v (ground arith);
    closed = λ u v a b. ground (arith, h.closed u v a b, text_eq_iff s v);
  }

  seen_source :
      (seen : List Text) (s v : Text)
      → ((w : Text) → contains seen w ≡ true → Walk edges initial w)
      → Walk edges initial s
      → contains (s ∷ seen) v ≡ true
      → Walk edges initial v
  seen_source seen s v h w m = elim (Bool-cases (text_eq s v)) [
    | inl same ↦ subst (Walk edges initial) ((text_eq_iff s v).0 same) w
    | inr other ↦ h v (ground arith)
  ]

  Inv-visit :
      (seen stack : List Text) (s : Text)
      → Inv seen (s ∷ stack)
      → Inv (s ∷ seen) (push_unseen (s ∷ seen) (targets edges s) stack)
  Inv-visit seen stack s h =
      let to_s : Walk edges initial s = h.sound_stack s (ground (arith, text_eq_refl s)) in
      let pushed = λ (v : Text). contains-push_unseen (s ∷ seen) (targets edges s) stack v in
      record {
        source = ground (arith, pushed initial);
        sound_seen = λ v m. seen_source seen s v h.sound_seen to_s m;
        sound_stack = λ v m. elim ((pushed v).0 m) [
          | inl before ↦ h.sound_stack v (ground arith)
          | inr (edge, _) ↦ next to_s edge
        ];
        closed = λ u v m edge. elim (Bool-cases (text_eq s u)) [
          | inl same ↦
              let e : contains (targets edges s) v ≡ true =
                subst (λ x. contains (targets edges x) v ≡ true) (sym ((text_eq_iff s u).0 same))
                  edge in
              ground (arith, pushed v)
          | inr other ↦ ground (arith, pushed v, h.closed u v (ground arith) edge)
        ];
      }

  bfs_loop-Inv :
      (fuel : ℕ) (seen stack out : List Text)
      → Inv seen stack
      → bfs_loop edges fuel seen stack ≡ some out
      → Inv out []
  unfolding bfs_loop
  bfs_loop-Inv zero seen [] out h e = subst (λ x. Inv x []) (ground arith) h
  bfs_loop-Inv (suc fuel) seen [] out h e = subst (λ x. Inv x []) (ground arith) h
  bfs_loop-Inv zero seen (s ∷ stack) out h e = cc
  bfs_loop-Inv (suc fuel) seen (s ∷ stack) out h e = elim (Bool-cases (contains seen s)) [
    | inl old ↦ bfs_loop-Inv fuel seen stack out (Inv-skip seen stack s old h) (rw old at e)
    | inr new ↦
        bfs_loop-Inv fuel (s ∷ seen) (push_unseen (s ∷ seen) (targets edges s) stack) out
          (Inv-visit seen stack s h) (rw new at e)
  ]

  complete :
      (out : List Text) → Inv out [] → {v : Text} → Walk edges initial v → contains out v ≡ true
  complete out h here = ground (arith, h.source)
  complete out h (next {u} {v} w edge) = ground (arith, h.closed u v (complete out h w) edge)

  Inv-start : Inv [] (initial ∷ [])
  Inv-start = record {
    source = inr (ground (arith, text_eq_refl initial));
    sound_seen = λ v m. cc;
    sound_stack = λ v m. subst (Walk edges initial) ((text_eq_iff initial v).0 (ground arith)) here;
    closed = λ u v m edge. cc;
  }

-- What the search returns holds exactly the states that a walk from the initial state reaches.
pub bfs_reachable-Walk :
    (flow : FlowDescriptor) (fuel : ℕ) (out : List Text) (v : Text)
    → bfs_reachable fuel flow ≡ some out
    → ((contains out v ≡ true) → Walk flow.edges flow.initial v)
      × (Walk flow.edges flow.initial v → contains out v ≡ true)
unfolding bfs_reachable
bfs_reachable-Walk flow fuel out v e =
    let inv =
      bfs_loop-Inv flow.edges flow.initial fuel [] (flow.initial ∷ []) out
        (Inv-start flow.edges flow.initial) e in
    (inv.sound_seen v, complete flow.edges flow.initial out inv)

-- The search returns with fuel for one round more than there are edges, and holds exactly the states
-- that a walk from the initial state reaches.
pub bfs_reachable_iff :
    (flow : FlowDescriptor) (fuel : ℕ)
    → suc (length flow.edges) ≤ fuel
    → (out : List Text) × (bfs_reachable fuel flow ≡ some out)
      × ((v : Text) → (contains out v ≡ true) ↔ Walk flow.edges flow.initial v)
unfolding bfs_reachable
bfs_reachable_iff flow fuel enough =
    let (out, e) =
      bfs_loop-returns flow.edges fuel [] (flow.initial ∷ [])
        (omega (arith, remaining-le [] flow.edges)) in
    (out, e, λ v. bfs_reachable-Walk flow fuel out v e)
