-- ===== src/AuthCore/Sessions.antt =====
-- The session record and the in-memory session store: auth-core/src/record/session.rs and
-- auth-core/src/store/session.rs. Time is in seconds; each call reads the clock once.
pub mod Revoked
pub mod Laws
pub mod Queries
pub mod Refines
use volta_gateway.Prelude.{
  is_empty, ℕ, suc, ◌-◌, max, Bool, true, false, not, ◌&&◌, Option, none, some, List, [], ◌∷◌, map,
  filter, length, ltb, if◌then◌else◌, is_some, Text, text, text_eq, text_is_eq,
}
use volta_gateway.Prelude.Dict.{Dict, get, insert, retain}
use volta_gateway.AuthCore.Policy.{join}

pub record SessionRecord : Type 0 where
  pub session_id : Text
  pub user_id : Text
  pub tenant_id : Text
  pub return_to : Option Text
  pub created_at : ℕ
  pub last_active_at : ℕ
  pub expires_at : ℕ
  pub invalidated_at : Option ℕ
  pub mfa_verified_at : Option ℕ
  pub ip_address : Option Text
  pub user_agent : Option Text
  pub csrf_token : Option Text
  pub email : Option Text
  pub tenant_slug : Option Text
  pub roles : List Text
  pub display_name : Option Text

unfoldable pub is_valid_at : ℕ → SessionRecord → Bool
is_valid_at now r = not (is_some r.invalidated_at) && ltb now r.expires_at

unfoldable pub is_mfa_verified : SessionRecord → Bool
is_mfa_verified r = is_some r.mfa_verified_at

abbrev insert_some : Text → Option Text → Dict Text Text → Dict Text Text
insert_some name none h = h
insert_some name (some value) h = insert name value h

unfoldable pub to_volta_headers : SessionRecord → Dict Text Text
to_volta_headers r =
    let user = insert (text "x-volta-user-id") r.user_id [] in
    let email = insert_some (text "x-volta-email") r.email user in
    let tenant = insert (text "x-volta-tenant-id") r.tenant_id email in
    let slug = insert_some (text "x-volta-tenant-slug") r.tenant_slug tenant in
    let roles =
      if is_empty r.roles
      then slug
      else insert (text "x-volta-roles") (join (text ",") r.roles) slug in
    insert_some (text "x-volta-display-name") r.display_name roles

pub record SessionStore : Type 0 where
  pub sessions : Dict Text SessionRecord

pub data SessionError : Type 0 where
  session_not_found : SessionError

unfoldable pub create : SessionRecord → SessionStore → SessionStore
create r s = record { sessions = insert r.session_id r s.sessions }

unfoldable pub find_session : ℕ → Text → SessionStore → Option SessionRecord
find_session now id s = elim (get id s.sessions) [
  | none ↦ none
  | some r ↦ if is_valid_at now r then some r else none
]

unfoldable pub touch : ℕ → Text → ℕ → SessionStore → SessionStore × Option SessionError
touch now id new_expires_at s = elim (find_session now id s) [
  | none ↦ (s, some session_not_found)
  | some r ↦ (
    record {
      sessions =
          insert id
            (record r { last_active_at = now; expires_at = max r.expires_at new_expires_at })
            s.sessions;
    },
    none,
  )
]

unfoldable pub mark_mfa_verified : ℕ → Text → SessionStore → SessionStore
mark_mfa_verified now id s = elim (get id s.sessions) [
  | none ↦ s
  | some r ↦ record { sessions = insert id (record r { mfa_verified_at = some now }) s.sessions }
]

unfoldable pub revoke : ℕ → Text → SessionStore → SessionStore
revoke now id s = elim (get id s.sessions) [
  | none ↦ s
  | some r ↦ record { sessions = insert id (record r { invalidated_at = some now }) s.sessions }
]

-- The test and the body of the loop over the records of a user.
abbrev pub is_revocable : Text → SessionRecord → Bool
is_revocable user r = text_eq r.user_id user && not (is_some r.invalidated_at)

unfoldable pub revoke_each : ℕ → Text → Dict Text SessionRecord → Dict Text SessionRecord
revoke_each now user [] = []
revoke_each now user ((id, r) ∷ m) =
    let rest = revoke_each now user m in
    if is_revocable user r
    then (id, record r { invalidated_at = some now }) ∷ rest
    else (id, r) ∷ rest

unfoldable pub revoke_all_for_user : ℕ → Text → SessionStore → SessionStore × ℕ
revoke_all_for_user now user s = (
  record { sessions = revoke_each now user s.sessions },
  length (filter (λ p. is_revocable user p.1) s.sessions),
)

unfoldable pub list_by_user : Text → SessionStore → List SessionRecord
list_by_user user s = filter (λ r. text_eq r.user_id user) (map (λ p. p.1) s.sessions)

unfoldable pub count_active : ℕ → Text → SessionStore → ℕ
count_active now user s =
    length (filter (λ p. text_eq p.1.user_id user && is_valid_at now p.1) s.sessions)

unfoldable pub cleanup_expired : ℕ → SessionStore → SessionStore × ℕ
cleanup_expired now s =
    let kept = retain (λ _ r. is_valid_at now r) s.sessions in
    (record { sessions = kept }, length s.sessions - length kept)
