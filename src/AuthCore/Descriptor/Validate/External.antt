-- ===== src/AuthCore/Descriptor/Validate/External.antt =====
-- A flow without the errors about external edges has at most one of them out of each state.
use volta_gateway.Prelude.{
  report_each-nil, ℕ, suc, ◌+◌, ◌≤◌, ◌≡◌, subst, inl, inr, Bool, false, some, List, [], ◌∷◌, arith,
  ltb, if◌then◌else◌, unwrap_or, All, Text, text_eq, text_eq_iff, text_is_eq, Bool-cases,
  Option-cases,
}
use volta_gateway.Prelude.Dict.{Dict, get, insert}
use volta_gateway.Prelude.Dict.Laws.{get-insert}
use volta_gateway.AuthCore.Descriptor.{Edge, FlowDescriptor}
use volta_gateway.AuthCore.Descriptor.Validate.{FlowError, count_external, external_errors}

-- The external edges that leave a state.
unfoldable pub external_from : Text → List Edge → ℕ
external_from s [] = 0
external_from s (e ∷ edges) =
    let rest = external_from s edges in if text_eq e.from s then suc rest else rest

get-count_external :
    (s : Text) (edges : List Edge) (counts : Dict Text ℕ)
    → unwrap_or 0 (get s (count_external edges counts))
      ≡ unwrap_or 0 (get s counts) + external_from s edges
unfolding count_external external_from
get-count_external s [] counts = omega arith
get-count_external s (e ∷ edges) counts =
    let n = suc (unwrap_or 0 (get e.from counts)) in
    ground (
      arith,
      get-count_external s edges (insert e.from n counts),
      get-insert e.from s n counts,
      text_eq_iff e.from s,
    )

All-get {ℓ} :
    {V : Type ℓ} (p : V → Bool) (m : Dict Text V) (s : Text) {v : V}
    → All (λ b. p b.1 ≡ false) m
    → get s m ≡ some v
    → p v ≡ false
unfolding get
All-get p [] s h e = cc
All-get p ((j, w) ∷ m) s {v} (good, h) e = elim (Bool-cases (text_eq j s)) [
  | inl here ↦ let same : w ≡ v = ground arith in subst (λ x. p x ≡ false) same good
  | inr later ↦ All-get p m s h (rw later at e)
]

pub external_errors-nil :
    (flow : FlowDescriptor) (s : Text)
    → external_errors flow ≡ []
    → external_from s flow.external_edges ≤ 1
unfolding external_errors
external_errors-nil flow s h =
    let small =
      report_each-nil (λ p. ltb 1 p.1) (λ p. FlowError.multiple_external_edges p.0)
        (count_external flow.external_edges []) h in
    let counted = get-count_external s flow.external_edges [] in
    elim (Option-cases (get s (count_external flow.external_edges []))) [
      | inl absent ↦ ground (arith, counted)
      | inr (n, found) ↦
          let one = All-get (ltb 1) (count_external flow.external_edges []) s small found in
          ground (arith, counted)
    ]
