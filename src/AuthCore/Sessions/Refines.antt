-- ===== src/AuthCore/Sessions/Refines.antt =====
-- What the store promises: each identifier has a session of its own, or none, which the calls change
-- one after the other and on which no other session has any influence.
use volta_gateway.Prelude.{
  ◌⊎◌, subst, sym, max, ℕ, ◌≡◌, refl, inl, inr, ◌∙◌, ap, Option, none, some, List, [], ◌∷◌, arith,
  if◌then◌else◌, Text, text_eq, text_eq_iff, text_is_eq, Bool-cases, Option-cases, map_option,
  and_then,
}
use volta_gateway.Prelude.Dict.{Dict, get, insert, Nodup}
use volta_gateway.Prelude.Dict.Laws.{get-insert, get-retain, insert-Nodup, retain-Nodup}
use volta_gateway.AuthCore.Sessions.{
  SessionRecord, is_valid_at, SessionStore, create, find_session, touch, mark_mfa_verified, revoke,
  is_revocable, revoke_each, revoke_all_for_user, cleanup_expired,
}
use volta_gateway.AuthCore.Sessions.Revoked.{revoke_each-Nodup}
use volta_gateway.AuthCore.Sessions.Laws.{
  Call, create_call, touch_call, mfa_call, revoke_call, revoke_all_call, cleanup_call, apply, run,
}

-- The session, if it is valid at the time.
unfoldable pub if_valid : ℕ → Option SessionRecord → Option SessionRecord
if_valid now session = and_then session (λ r. if is_valid_at now r then some r else none)

abbrev revoked_for : ℕ → Text → SessionRecord → SessionRecord
revoked_for now user r = if is_revocable user r then record r { invalidated_at = some now } else r

abbrev touched : ℕ → ℕ → SessionRecord → SessionRecord
touched now expires r =
    if is_valid_at now r
    then record r { last_active_at = now; expires_at = max r.expires_at expires }
    else r

-- What a call makes of the session of one identifier.
unfoldable pub evolve : Text → Call → Option SessionRecord → Option SessionRecord
unfolding if_valid
evolve id (create_call r) session = if text_eq r.session_id id then some r else session
evolve id (touch_call now j expires) session =
    if text_eq j id then map_option (touched now expires) session else session
evolve id (mfa_call now j) session =
    if text_eq j id
    then map_option {A = SessionRecord} (λ r. record r { mfa_verified_at = some now }) session
    else session
evolve id (revoke_call now j) session =
    if text_eq j id
    then map_option {A = SessionRecord} (λ r. record r { invalidated_at = some now }) session
    else session
evolve id (revoke_all_call now user) session = map_option (revoked_for now user) session
evolve id (cleanup_call now) session = if_valid now session

unfoldable pub evolve_all : Text → List Call → Option SessionRecord → Option SessionRecord
evolve_all id [] session = session
evolve_all id (c ∷ calls) session = evolve_all id calls (evolve id c session)

get-revoke_each :
    (now : ℕ) (user id : Text) (m : Dict Text SessionRecord)
    → get id (revoke_each now user m) ≡ map_option (revoked_for now user) (get id m)
unfolding get revoke_each
get-revoke_each now user id [] = refl
get-revoke_each now user id ((j, r) ∷ m) = ground (arith, get-revoke_each now user id m)

-- The store `t` holds each identifier once, and under `id` what `f` makes of the session in `s`.
abbrev Follows :
    Text → (Option SessionRecord → Option SessionRecord) → SessionStore → SessionStore → Type 0
Follows id f s t = Nodup t.sessions × (get id t.sessions ≡ f (get id s.sessions))

-- The change of one held session, to the store `t`.
change-Follows :
    (f : SessionRecord → SessionRecord) (j id : Text) (s t : SessionStore)
    → (get j s.sessions ≡ none → t ≡ s)
    → ((r : SessionRecord)
        → get j s.sessions ≡ some r
        → (t ≡ record { sessions = insert j (f r) s.sessions }) ⊎ ((t ≡ s) × (f r ≡ r)))
    → Nodup s.sessions
    → Follows id (λ session. if text_eq j id then map_option f session else session) s t
change-Follows f j id s t missing held unique = elim (Option-cases (get j s.sessions)) [
  | inl absent ↦
      subst (Follows id change s) (sym (missing absent)) (unique, ground (arith, text_eq_iff j id))
  | inr (r, found) ↦ elim (held r found) [
    | inl written ↦ subst (Follows id change s) (sym written) (
      insert-Nodup j (f r) s.sessions unique,
      get-insert j id (f r) s.sessions ∙ ground (arith, text_eq_iff j id),
    )
    | inr (same, fixed) ↦
        subst (Follows id change s) (sym same) (unique, ground (arith, text_eq_iff j id))
  ]
]
  where
    change : Option SessionRecord → Option SessionRecord
    change session = if text_eq j id then map_option f session else session

apply-Follows :
    (c : Call) (id : Text) (s : SessionStore)
    → Nodup s.sessions
    → Follows id (evolve id c) s (apply c s)
unfolding apply evolve if_valid create touch find_session mark_mfa_verified revoke
    revoke_all_for_user cleanup_expired
apply-Follows (create_call r) id s unique =
    (insert-Nodup r.session_id r s.sessions unique, get-insert r.session_id id r s.sessions)
apply-Follows (touch_call now j expires) id s unique =
    change-Follows (touched now expires) j id s (touch now j expires s).0 (λ absent. ground arith)
      (λ r found. elim (Bool-cases (is_valid_at now r)) [
        | inl valid ↦ inl (ground arith)
        | inr not_valid ↦ inr (ground arith, ground arith)
      ])
      unique
apply-Follows (mfa_call now j) id s unique =
    change-Follows (λ r. record r { mfa_verified_at = some now }) j id s (mark_mfa_verified now j s)
      (λ absent. ground arith) (λ r found. inl (ground arith)) unique
apply-Follows (revoke_call now j) id s unique =
    change-Follows (λ r. record r { invalidated_at = some now }) j id s (revoke now j s)
      (λ absent. ground arith) (λ r found. inl (ground arith)) unique
apply-Follows (revoke_all_call now user) id s unique =
    (revoke_each-Nodup now user s.sessions unique, get-revoke_each now user id s.sessions)
apply-Follows (cleanup_call now) id s unique = (
  retain-Nodup (λ _ r. is_valid_at now r) s.sessions unique,
  get-retain (λ _ r. is_valid_at now r) id s.sessions unique,
)

run-Follows :
    (calls : List Call) (id : Text) (s : SessionStore)
    → Nodup s.sessions
    → Follows id (evolve_all id calls) s (run calls s)
unfolding run evolve_all
run-Follows [] id s unique = (unique, refl)
run-Follows (c ∷ calls) id s unique =
    let (once, step) = apply-Follows c id s unique in
    let (all_once, rest) = run-Follows calls id (apply c s) once in
    (all_once, rest ∙ ap (evolve_all id calls) step)

-- The store implements the sessions that evolve each on its own: after any calls on a store that
-- holds each identifier once, what is found under an identifier at a time is what the calls make of
-- the session held under it before, if that is valid at the time.
pub find_session-run :
    (calls : List Call) (now : ℕ) (id : Text) (s : SessionStore)
    → Nodup s.sessions
    → find_session now id (run calls s) ≡ if_valid now (evolve_all id calls (get id s.sessions))
unfolding find_session if_valid
find_session-run calls now id s unique =
    let (once, same) = run-Follows calls id s unique in ground arith
