-- ===== src/AuthCore/Sessions/Revoked.antt =====
-- The loop that revokes the sessions of a user.
use volta_gateway.Prelude.{
  ℕ, ◌≡◌, refl, inl, inr, Bool, true, false, Option, none, some, [], ◌∷◌, arith, is_some, All, Text,
  text_eq, text_is_eq, Bool-cases,
}
use volta_gateway.Prelude.Dict.{Dict, get, Nodup}
use volta_gateway.AuthCore.Sessions.{SessionRecord, is_revocable, revoke_each}

-- No session, or a revoked one.
abbrev pub is_dead : Option SessionRecord → Bool
is_dead none = true
is_dead (some r) = is_some r.invalidated_at

pub revoke_each-dead :
    (now : ℕ) (user id : Text) (m : Dict Text SessionRecord)
    → is_dead (get id m) ≡ true
    → is_dead (get id (revoke_each now user m)) ≡ true
unfolding revoke_each get
revoke_each-dead now user id [] h = refl
revoke_each-dead now user id ((j, r) ∷ m) h = ground (arith, revoke_each-dead now user id m)

revoke_each-fresh :
    (now : ℕ) (user j : Text) (m : Dict Text SessionRecord)
    → All (λ b. text_eq b.0 j ≡ false) m
    → All (λ b. text_eq b.0 j ≡ false) (revoke_each now user m)
unfolding revoke_each
revoke_each-fresh now user j [] h = tt
revoke_each-fresh now user j ((i, r) ∷ m) (f, h) = elim (Bool-cases (is_revocable user r)) [
  | inl e ↦ rw e (f, revoke_each-fresh now user j m h)
  | inr e ↦ rw e (f, revoke_each-fresh now user j m h)
]

pub revoke_each-Nodup :
    (now : ℕ) (user : Text) (m : Dict Text SessionRecord) → Nodup m → Nodup (revoke_each now user m)
unfolding revoke_each
revoke_each-Nodup now user [] h = tt
revoke_each-Nodup now user ((i, r) ∷ m) (f, h) = elim (Bool-cases (is_revocable user r)) [
  | inl e ↦ rw e (revoke_each-fresh now user i m f, revoke_each-Nodup now user m h)
  | inr e ↦ rw e (revoke_each-fresh now user i m f, revoke_each-Nodup now user m h)
]
