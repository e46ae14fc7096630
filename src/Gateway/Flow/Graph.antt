-- ===== src/Gateway/Flow/Graph.antt =====
-- The diagram of the request: no way to `completed` leaves out a check.
use mathlib.Core.Bool.{false≢true}
use volta_gateway.Prelude.{sym, ◌∙◌, List, [], ◌∷◌, ◌↔◌, ◌≡◌, true, false, refl}
use volta_gateway.Gateway.Flow.{
  ProxyState, received, validated, routed, auth_checked, forwarded, completed, bad_gateway,
  is_terminal, Trigger, any_error, Transition, request_validator, routing_resolver, auth_guard,
  forward_guard, completion_processor, ip_denied, error,
}

-- A walk along the transitions, with the states that it leaves, in order.
infix 40 ◌⟶*◌
pub data ◌⟶*◌ : ProxyState → ProxyState → Type 0 where
  here : {s : ProxyState} → s ⟶* s
  then : {s u v : ProxyState} {t : Trigger} → Transition s t u → u ⟶* v → s ⟶* v

-- The states that a walk leaves, in order.
unfoldable pub left : {s v : ProxyState} → s ⟶* v → List ProxyState
left here = []
left (then {s = s} step rest) = s ∷ left rest

-- A transition leaves no terminal state.
pub Transition-not_terminal :
    {s u : ProxyState} {t : Trigger} → Transition s t u → is_terminal s ≡ false
unfolding is_terminal
Transition-not_terminal request_validator = refl
Transition-not_terminal routing_resolver = refl
Transition-not_terminal auth_guard = refl
Transition-not_terminal forward_guard = refl
Transition-not_terminal completion_processor = refl
Transition-not_terminal ip_denied = refl
Transition-not_terminal (error e) = e

-- From a terminal state a walk goes nowhere.
terminal_stays : {s v : ProxyState} → is_terminal s ≡ true → s ⟶* v → s ≡ v
terminal_stays h here = refl
terminal_stays h (then step rest) = absurd (false≢true (sym (Transition-not_terminal step) ∙ h))

-- What is behind each state on the way to `completed`.
abbrev remaining : ProxyState → List ProxyState
remaining received = received ∷ validated ∷ routed ∷ auth_checked ∷ forwarded ∷ []
remaining validated = validated ∷ routed ∷ auth_checked ∷ forwarded ∷ []
remaining routed = routed ∷ auth_checked ∷ forwarded ∷ []
remaining auth_checked = auth_checked ∷ forwarded ∷ []
remaining forwarded = forwarded ∷ []
remaining _ = []

left-remaining : {s v : ProxyState} (w : s ⟶* v) → v ≡ completed → left w ≡ remaining s
unfolding left is_terminal
left-remaining here e = rw e refl
left-remaining (then request_validator w) e = rw (left-remaining w e)
left-remaining (then routing_resolver w) e = rw (left-remaining w e)
left-remaining (then auth_guard w) e = rw (left-remaining w e)
left-remaining (then forward_guard w) e = rw (left-remaining w e)
left-remaining (then completion_processor w) e = rw (left-remaining w e)
left-remaining (then ip_denied w) e = absurd (cc (terminal_stays refl w))
left-remaining (then (error _) w) e = absurd (cc (terminal_stays refl w))

-- A walk from `received` to `completed` leaves `received`, `validated`, `routed`, `auth_checked` and
-- `forwarded`, each once and in this order.
pub completed-left :
    (w : received ⟶* completed)
    → left w ≡ received ∷ validated ∷ routed ∷ auth_checked ∷ forwarded ∷ []
completed-left w = left-remaining w refl

-- A state is not terminal exactly when a transition leads from it to a terminal state.
pub is_terminal_iff :
    (s : ProxyState)
    → (is_terminal s ≡ false)
      ↔ ((t : Trigger) × (u : ProxyState) × Transition s t u × (is_terminal u ≡ true))
unfolding is_terminal
is_terminal_iff s =
    (λ e. (any_error, bad_gateway, error e, refl), λ (t, u, step, _). Transition-not_terminal step)
