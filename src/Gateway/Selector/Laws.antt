-- ===== src/Gateway/Selector/Laws.antt =====
-- Which backend is chosen.
use native.Mathlib.Nat.{
  mod-lt, mod-eq_of_lt, add-mod-mod, add-mul-mod_self_left, add-mod_right, div-add-mod,
}
use volta_gateway.Prelude.{
  ℕ, zero, suc, ◌+◌, ◌-◌, ◌*◌, ◌/◌, ◌%◌, ◌≤◌, ◌<◌, ◌≡◌, refl, ◌∙◌, ap, subst, inl, inr, Bool, true,
  Option, some, List, [], ◌∷◌, arith, ltb, leb, unwrap_or, length, get_elem?, In, u32, u64, u64_max,
  Text, text_is_eq, Bool-cases, Option-cases,
}
use volta_gateway.Prelude.Dict.{Dict, get}
use volta_gateway.Gateway.Selector.{
  BackendSelector, is_healthy, total_weight, pick_weighted, round_robin, select_weighted, select,
}

module _ {ℓ} {A : Type ℓ} where
  get_elem?-In : (xs : List A) (i : ℕ) {a : A} → get_elem? xs i ≡ some a → In a xs
  get_elem?-In [] i h = cc
  get_elem?-In (x ∷ xs) zero {a} h =
      let e : x ≡ a = ground arith in subst (λ y. In y (x ∷ xs)) e In.head
  get_elem?-In (x ∷ xs) (suc i) h = In.tail (get_elem?-In xs i h)

  In-get_elem? :
      {a : A} {xs : List A} → In a xs → (i : ℕ) × (i < length xs) × (get_elem? xs i ≡ some a)
  In-get_elem? In.head = (0, omega arith, refl)
  In-get_elem? (In.tail m) = let (i, lt, e) = In-get_elem? m in (suc i, omega arith, e)

  get_elem?-lt : (xs : List A) (i : ℕ) → i < length xs → (a : A) × (get_elem? xs i ≡ some a)
  get_elem?-lt [] i h = absurd (omega arith)
  get_elem?-lt (x ∷ xs) zero h = (x, refl)
  get_elem?-lt (x ∷ xs) (suc i) h = get_elem?-lt xs i (omega arith)

shift : (c i n q r : ℕ) → q + r ≡ c → r < n → c + (i + (n - r)) ≡ (i + n) + q
shift c i n q r e lt = omega arith

-- Counting on from any number reaches every remainder within one round.
cover : (c i n : ℕ) → i < n → (k : ℕ) × (k < n) × ((c + k) % n ≡ i)
cover c i n lt =
    let pos : 0 < n = omega arith in
    (
      (i + (n - c % n)) % n,
      mod-lt (i + (n - c % n)) pos,
      add-mod-mod c (i + (n - c % n)) n
          ∙ ap (λ m. m % n) (shift c i n (n * (c / n)) (c % n) (div-add-mod c n) (mod-lt c pos))
          ∙ add-mul-mod_self_left (i + n) n (c / n)
          ∙ add-mod_right i n
          ∙ mod-eq_of_lt lt,
    )

pick_weighted-some :
    (health : Dict Text Bool) (r acc : ℕ) (bs : List Text) (ws : List ℕ) {b : Text}
    → pick_weighted health r acc bs ws ≡ some b
    → In b bs × (is_healthy health b ≡ true)
unfolding pick_weighted
pick_weighted-some health r acc [] ws h = cc
pick_weighted-some health r acc (x ∷ bs) [] h = cc
pick_weighted-some health r acc (x ∷ bs) (w ∷ ws) {b} h = elim (Bool-cases (is_healthy health x)) [
  | inl alive ↦ elim (Bool-cases (ltb r (u32 (acc + w)))) [
    | inl here ↦
        let e : x ≡ b = ground arith in
        (subst (λ y. In y (x ∷ bs)) e In.head, subst (λ y. is_healthy health y ≡ true) e alive)
    | inr further ↦
        let (m, ok) = pick_weighted-some health r (u32 (acc + w)) bs ws (ground arith) in
        (In.tail m, ok)
  ]
  | inr dead ↦ let (m, ok) = pick_weighted-some health r acc bs ws (ground arith) in (In.tail m, ok)
]

abbrev ChoosesHealthy : Dict Text Bool → List Text → Option Text → Type 0
ChoosesHealthy health backends chosen =
    (b : Text) × (chosen ≡ some b) × In b backends × (is_healthy health b ≡ true)

-- A healthy backend within the rounds that are left is enough.
round_robin-healthy :
    (health : Dict Text Bool) (backends : List Text) (rounds counter k : ℕ) (b : Text)
    → k < rounds
    → counter + rounds ≤ u64_max
    → get_elem? backends ((counter + k) % length backends) ≡ some b
    → is_healthy health b ≡ true
    → ChoosesHealthy health backends (round_robin health backends rounds counter).1
unfolding round_robin
round_robin-healthy health backends zero counter k b lt small at alive = absurd (omega arith)
round_robin-healthy health backends (suc rounds) counter zero b lt small at alive =
    let same : counter + 0 ≡ counter = omega arith in
    let here : get_elem? backends (counter % length backends) ≡ some b = rw same at at in
    (b, ground arith, get_elem?-In backends _ here, alive)
round_robin-healthy health backends (suc rounds) counter (suc k) b lt small at alive =
    let next : u64 (counter + 1) ≡ counter + 1 = omega arith in
    let sum : counter + suc k ≡ (counter + 1) + k = omega arith in
    let (c, e, m, ok) =
      round_robin-healthy health backends rounds (counter + 1) k b (omega arith) (omega arith)
        (rw sum at at) alive in
    elim (Option-cases (get_elem? backends (counter % length backends))) [
      | inl out ↦ (c, ground arith, m, ok)
      | inr (x, found) ↦ elim (Bool-cases (is_healthy health x)) [
        | inl fine ↦ (x, ground arith, get_elem?-In backends _ found, fine)
        | inr dead ↦ (c, ground arith, m, ok)
      ]
    ]

-- The round robin always ends with a backend of the list.
round_robin-In :
    (health : Dict Text Bool) (backends : List Text) (rounds counter : ℕ)
    → 0 < length backends
    → (c : Text) × ((round_robin health backends rounds counter).1 ≡ some c) × In c backends
unfolding round_robin
round_robin-In health backends zero counter some_backend =
    let (c, at) = get_elem?-lt backends (counter % length backends) (mod-lt counter some_backend) in
    (c, at, get_elem?-In backends _ at)
round_robin-In health backends (suc rounds) counter some_backend =
    let (c, e, m) = round_robin-In health backends rounds (u64 (counter + 1)) some_backend in
    elim (Option-cases (get_elem? backends (counter % length backends))) [
      | inl out ↦ (c, ground arith, m)
      | inr (x, found) ↦ elim (Bool-cases (is_healthy health x)) [
        | inl fine ↦ (x, ground arith, get_elem?-In backends _ found)
        | inr dead ↦ (c, ground arith, m)
      ]
    ]

single :
    (backends : List Text) {b : Text}
    → In b backends
    → length backends ≤ 1
    → get_elem? backends 0 ≡ some b
single backends m small =
    let (i, lt, at) = In-get_elem? m in let first : i ≡ 0 = omega arith in rw first at at

module _ (scale : (sample total : ℕ) → ℕ) where
  select_weighted-some :
      (health : Dict Text Bool) (sample : ℕ) (backends : List Text) (weights : List ℕ) {b : Text}
      → select_weighted scale health sample backends weights ≡ some b
      → In b backends × (is_healthy health b ≡ true)
  unfolding select_weighted
  select_weighted-some health sample backends weights h =
      pick_weighted-some health (scale sample (total_weight health backends weights)) 0 backends
        weights (ground arith)

  -- If one of the backends is healthy, the backend that is chosen is one of them and healthy,
  -- whatever the weights and the sample, as long as the counter of the host does not overflow.
  pub select-healthy :
      (sample : ℕ) (host : Text) (backends : List Text) (weights : List ℕ) (s : BackendSelector)
      (b : Text)
      → In b backends
      → is_healthy s.health b ≡ true
      → unwrap_or 0 (get host s.counters) + length backends ≤ u64_max
      → (c : Text) × ((select scale sample host backends weights s).1 ≡ some c)
        × In c backends
        × (is_healthy s.health c ≡ true)
  unfolding select
  select-healthy sample host backends weights s b m alive small =
      elim (Bool-cases (leb (length backends) 1)) [
        | inl one ↦
            let only = single backends m (ground arith) in (b, ground (arith, only), m, alive)
        | inr several ↦
            elim (Option-cases (select_weighted scale s.health sample backends weights)) [
              | inl fallback ↦
                  let (i, lt, at) = In-get_elem? m in
                  let (k, in_round, reached) =
                    cover (unwrap_or 0 (get host s.counters)) i (length backends) lt in
                  let (c, e, listed, ok) =
                    round_robin-healthy s.health backends (length backends)
                      (unwrap_or 0 (get host s.counters)) k b in_round small (rw reached at)
                      alive in
                  (c, ground arith, listed, ok)
              | inr (c, chosen) ↦
                  let (listed, ok) = select_weighted-some s.health sample backends weights chosen in
                  (c, ground arith, listed, ok)
            ]
      ]

  -- From a list that is not empty a backend of the list is always chosen, also if none is healthy.
  pub select-In :
      (sample : ℕ) (host : Text) (backends : List Text) (weights : List ℕ) (s : BackendSelector)
      → 0 < length backends
      → (c : Text) × ((select scale sample host backends weights s).1 ≡ some c) × In c backends
  unfolding select
  select-In sample host backends weights s some_backend =
      elim (Bool-cases (leb (length backends) 1)) [
        | inl one ↦
            let (c, at) = get_elem?-lt backends 0 some_backend in
            (c, ground arith, get_elem?-In backends 0 at)
        | inr several ↦
            elim (Option-cases (select_weighted scale s.health sample backends weights)) [
              | inl fallback ↦
                  let (c, e, m) =
                    round_robin-In s.health backends (length backends)
                      (unwrap_or 0 (get host s.counters)) some_backend in
                  (c, ground arith, m)
              | inr (c, chosen) ↦
                  let (m, ok) = select_weighted-some s.health sample backends weights chosen in
                  (c, ground arith, m)
            ]
      ]
