-- ===== src/AuthCore/Sessions/Laws.antt =====
-- A revoked session stays revoked.
use mathlib.Core.Bool.{false≢true}
use volta_gateway.Prelude.{
  sym, subst, max, ℕ, ◌≡◌, refl, inl, inr, ◌∙◌, true, false, none, some, List, [], ◌∷◌, arith,
  is_some, All, Text, text_eq, text_eq_iff, text_is_eq, Bool-cases, Option-cases,
}
use volta_gateway.Prelude.Dict.{get, insert, Nodup}
use volta_gateway.Prelude.Dict.Laws.{
  get-insert, get-insert_self, get-retain, insert-Nodup, retain-Nodup,
}
use volta_gateway.AuthCore.Sessions.Revoked.{is_dead, revoke_each-dead, revoke_each-Nodup}
use volta_gateway.AuthCore.Sessions.{
  SessionRecord, is_valid_at, SessionStore, create, find_session, touch, mark_mfa_verified, revoke,
  revoke_all_for_user, cleanup_expired,
}

-- The calls that change the store, each with the time at which it is made.
pub data Call : Type 0 where
  create_call : SessionRecord → Call
  touch_call : ℕ → Text → ℕ → Call
  mfa_call : ℕ → Text → Call
  revoke_call : ℕ → Text → Call
  revoke_all_call : ℕ → Text → Call
  cleanup_call : ℕ → Call

unfoldable pub apply : Call → SessionStore → SessionStore
apply (create_call r) s = create r s
apply (touch_call now id expires) s = (touch now id expires s).0
apply (mfa_call now id) s = mark_mfa_verified now id s
apply (revoke_call now id) s = revoke now id s
apply (revoke_all_call now user) s = (revoke_all_for_user now user s).0
apply (cleanup_call now) s = (cleanup_expired now s).0

unfoldable pub run : List Call → SessionStore → SessionStore
run [] s = s
run (c ∷ calls) s = run calls (apply c s)

-- The call does not create a session under the identifier.
abbrev pub NotCreated : Text → Call → Type 0
NotCreated id (create_call r) = text_eq r.session_id id ≡ false
NotCreated id _ = Unit

-- Each identifier is held once, and the session of `id`, if it is held, is revoked.
abbrev IsDead : Text → SessionStore → Type 0
IsDead id s = Nodup s.sessions × (is_dead (get id s.sessions) ≡ true)

-- A write under a key keeps a dead session dead if it writes none that lives.
insert-IsDead :
    (id j : Text) (r : SessionRecord) (s : SessionStore)
    → (text_eq j id ≡ true → is_dead (some r) ≡ true)
    → IsDead id s
    → IsDead id (record { sessions = insert j r s.sessions })
insert-IsDead id j r s keeps (unique, h) = (
  insert-Nodup j r s.sessions unique,
  elim (Bool-cases (text_eq j id)) [
    | inl same ↦ rw (get-insert, same) (keeps same)
    | inr other ↦ rw (get-insert, other) h
  ],
)

-- The session of `j` that a call rewrites is dead if `j` is `id`.
dead_at :
    (id j : Text) (r : SessionRecord) (s : SessionStore)
    → IsDead id s
    → get j s.sessions ≡ some r
    → text_eq j id ≡ true
    → is_some r.invalidated_at ≡ true
dead_at id j r s (unique, h) found same =
    let e : j ≡ id = (text_eq_iff j id).0 same in
    let found' : get id s.sessions ≡ some r = rw e at found in rw found' at h

touch-IsDead :
    (now expires : ℕ) (id j : Text) (s : SessionStore)
    → IsDead id s
    → IsDead id (touch now j expires s).0
unfolding touch find_session
touch-IsDead now expires id j s d = elim (Option-cases (get j s.sessions)) [
  | inl absent ↦
      let same : (touch now j expires s).0 ≡ s = ground arith in subst (IsDead id) (sym same) d
  | inr (r, found) ↦ elim (Bool-cases (is_valid_at now r)) [
    | inl valid ↦
        let same : (touch now j expires s).0 ≡ record {
          sessions =
              insert j (record r { last_active_at = now; expires_at = max r.expires_at expires })
                s.sessions;
        } =
          ground arith in
        subst (IsDead id) (sym same) (
          insert-IsDead id j
            (record r { last_active_at = now; expires_at = max r.expires_at expires }) s
            (dead_at id j r s d found) d)
    | inr not_valid ↦
        let same : (touch now j expires s).0 ≡ s = ground arith in subst (IsDead id) (sym same) d
  ]
]

mfa-IsDead :
    (now : ℕ) (id j : Text) (s : SessionStore) → IsDead id s → IsDead id (mark_mfa_verified now j s)
unfolding mark_mfa_verified
mfa-IsDead now id j s d = elim (Option-cases (get j s.sessions)) [
  | inl absent ↦
      let same : mark_mfa_verified now j s ≡ s = ground arith in subst (IsDead id) (sym same) d
  | inr (r, found) ↦
      let same : mark_mfa_verified now j s
          ≡ record { sessions = insert j (record r { mfa_verified_at = some now }) s.sessions } =
        ground arith in
      subst (IsDead id) (sym same) (
        insert-IsDead id j (record r { mfa_verified_at = some now }) s (dead_at id j r s d found) d)
]

revoke-IsDead :
    (now : ℕ) (id j : Text) (s : SessionStore) → IsDead id s → IsDead id (revoke now j s)
unfolding revoke
revoke-IsDead now id j s d = elim (Option-cases (get j s.sessions)) [
  | inl absent ↦ let same : revoke now j s ≡ s = ground arith in subst (IsDead id) (sym same) d
  | inr (r, found) ↦
      let same : revoke now j s
          ≡ record { sessions = insert j (record r { invalidated_at = some now }) s.sessions } =
        ground arith in
      subst (IsDead id) (sym same)
        (insert-IsDead id j (record r { invalidated_at = some now }) s (λ _. refl) d)
]

apply-IsDead :
    (c : Call) (id : Text) (s : SessionStore)
    → NotCreated id c
    → IsDead id s
    → IsDead id (apply c s)
unfolding apply create revoke_all_for_user cleanup_expired
apply-IsDead (create_call r) id s ok d =
    insert-IsDead id r.session_id r s (λ same. absurd (false≢true (sym ok ∙ same))) d
apply-IsDead (touch_call now j expires) id s ok d = touch-IsDead now expires id j s d
apply-IsDead (mfa_call now j) id s ok d = mfa-IsDead now id j s d
apply-IsDead (revoke_call now j) id s ok d = revoke-IsDead now id j s d
apply-IsDead (revoke_all_call now user) id s ok (unique, h) =
    (revoke_each-Nodup now user s.sessions unique, revoke_each-dead now user id s.sessions h)
apply-IsDead (cleanup_call now) id s ok (unique, h) = (
  retain-Nodup (λ _ r. is_valid_at now r) s.sessions unique,
  rw (get-retain (λ _ r. is_valid_at now r) id s.sessions unique) (ground arith),
)

run-IsDead :
    (calls : List Call) (id : Text) (s : SessionStore)
    → All (NotCreated id) calls
    → IsDead id s
    → IsDead id (run calls s)
unfolding run
run-IsDead [] id s ok d = d
run-IsDead (c ∷ calls) id s (o, ok) d = run-IsDead calls id (apply c s) ok (apply-IsDead c id s o d)

revoked-IsDead :
    (now : ℕ) (id : Text) (s : SessionStore) → Nodup s.sessions → IsDead id (revoke now id s)
unfolding revoke
revoked-IsDead now id s unique = elim (Option-cases (get id s.sessions)) [
  | inl absent ↦
      let same : revoke now id s ≡ s = ground arith in
      subst (IsDead id) (sym same) (unique, rw absent refl)
  | inr (r, found) ↦
      let same : revoke now id s
          ≡ record { sessions = insert id (record r { invalidated_at = some now }) s.sessions } =
        ground arith in
      subst (IsDead id) (sym same) (
        insert-Nodup id (record r { invalidated_at = some now }) s.sessions unique,
        rw get-insert_self refl,
      )
]

-- A revoked session is not found at any time, whatever calls follow, unless one of them creates a
-- session under its identifier, in a store that holds each identifier once.
pub find_session-revoke :
    (now later : ℕ) (id : Text) (calls : List Call) (s : SessionStore)
    → Nodup s.sessions
    → All (NotCreated id) calls
    → find_session later id (run calls (revoke now id s)) ≡ none
unfolding find_session is_valid_at
find_session-revoke now later id calls s unique ok =
    let (_, dead) = run-IsDead calls id (revoke now id s) ok (revoked-IsDead now id s unique) in
    elim (Option-cases (get id (run calls (revoke now id s)).sessions)) [
      | inl gone ↦ ground arith
      | inr (r, found) ↦ ground arith
    ]
