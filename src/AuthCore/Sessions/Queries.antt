-- ===== src/AuthCore/Sessions/Queries.antt =====
-- What revoking all sessions of a user and cleaning up leave to be found.
use volta_gateway.Prelude.{
  ℕ, ◌≤◌, ◌≡◌, refl, inl, inr, ◌&&◌, [], ◌∷◌, arith, filter, length, Text, text_eq, text_is_eq,
  Option-cases,
}
use volta_gateway.Prelude.Dict.{Dict, get, Nodup}
use volta_gateway.Prelude.Dict.Laws.{get-retain}
use volta_gateway.AuthCore.Sessions.{
  SessionRecord, is_valid_at, SessionStore, find_session, revoke_each, revoke_all_for_user,
  count_active, cleanup_expired,
}

revoke_each-inactive :
    (now later : ℕ) (user : Text) (m : Dict Text SessionRecord)
    → length
        (filter (λ p. text_eq p.1.user_id user && is_valid_at later p.1) (revoke_each now user m))
      ≡ 0
unfolding revoke_each is_valid_at
revoke_each-inactive now later user [] = refl
revoke_each-inactive now later user ((id, r) ∷ m) =
    ground (arith, revoke_each-inactive now later user m)

-- Once the sessions of a user are revoked none is active, at any time.
pub count_active-revoke_all_for_user :
    (now later : ℕ) (user : Text) (s : SessionStore)
    → count_active later user (revoke_all_for_user now user s).0 ≡ 0
unfolding count_active revoke_all_for_user
count_active-revoke_all_for_user now later user s = revoke_each-inactive now later user s.sessions

-- Cleaning up changes the answer of no later search, if each identifier is held once.
pub find_session-cleanup_expired :
    (now later : ℕ) (id : Text) (s : SessionStore)
    → now ≤ later
    → Nodup s.sessions
    → find_session later id (cleanup_expired now s).0 ≡ find_session later id s
unfolding find_session cleanup_expired is_valid_at
find_session-cleanup_expired now later id s after unique = elim (Option-cases (get id s.sessions)) [
  | inl absent ↦ ground (arith, get-retain (λ _ r. is_valid_at now r) id s.sessions unique)
  | inr (r, found) ↦ ground (arith, get-retain (λ _ r. is_valid_at now r) id s.sessions unique)
]
