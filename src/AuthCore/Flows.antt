-- ===== src/AuthCore/Flows.antt =====
-- Flow definitions (auth-core/src/flow), as the builder is given them: what leads out of each state,
-- the processors, guards and branches by which it is taken, and the state for errors. The engine that
-- runs a definition is a package: it is only assumed to take the steps of the relation below.
pub mod LoginChallenge
pub mod Mfa
pub mod MfaSetup
pub mod PasswordReset
pub mod EmailVerification
pub mod Registration
pub mod Invite
pub mod DeviceGrant
pub mod Passkey
pub mod Oidc
use volta_gateway.Prelude.{
  map, ◌≡◌, ◌∙◌, sym, subst, refl, Bool, true, false, Option, none, some, List, [], ◌∷◌, arith,
  if◌then◌else◌, All, inl, inr, Bool-cases, Text, text_eq, text_is_eq,
}
use volta_gateway.Prelude.Dict.{Dict, get}

-- What leads out of a state: a processor that succeeds or fails on the context, a guard on the
-- context that has received data from outside, or a branch by a label. A terminal state has nothing.
pub data Exit (S C : Type 0) : Type 0 where
  auto : (C → Option C) → S → Exit S C
  external : (C → Bool) → S → Exit S C
  branch : (C → Text) → Dict Text S → Exit S C
  stop : Exit S C

-- The states to which an exit leads.
abbrev pub exit_targets : {S C : Type 0} → Exit S C → List S
exit_targets (auto p t) = t ∷ []
exit_targets (external g t) = t ∷ []
exit_targets (branch f m) = map (λ b. b.1) m
exit_targets stop = []

-- `E` is the data that comes from outside, and `inject` puts it into the context.
pub record Definition (S C E : Type 0) : Type 0 where
  pub from : S → Exit S C
  pub inject : E → C → C
  pub is_terminal : S → Bool
  pub on_any_error : S

module _ {S C E : Type 0} (d : Definition S C E) where
  -- A guard that rejects leaves the state, with the data in the context.
  pub data Step (s : S) (c : C) : S → C → Type 0 where
    auto_step :
        {p : C → Option C} {t : S} {c' : C} → d.from s ≡ auto p t → p c ≡ some c' → Step s c t c'
    external_step :
        {g : C → Bool} {t : S} (e : E)
        → d.from s ≡ external g t
        → g (d.inject e c) ≡ true
        → Step s c t (d.inject e c)
    rejected_step :
        {g : C → Bool} {t : S} (e : E)
        → d.from s ≡ external g t
        → g (d.inject e c) ≡ false
        → Step s c s (d.inject e c)
    branch_step :
        {f : C → Text} {m : Dict Text S} {t : S}
        → d.from s ≡ branch f m
        → get (f c) m ≡ some t
        → Step s c t c
    error_step : d.is_terminal s ≡ false → Step s c d.on_any_error c

  pub data Reach (s : S) (c : C) : S → C → Type 0 where
    here : Reach s c s c
    next : {t u : S} {a b : C} → Reach s c t a → Step t a u b → Reach s c u b

  -- What holds wherever the flow gets to from a first state and context.
  module _ (s₀ : S) (c₀ : C) (Inv : S → C → Type 0) where
    -- What an exit of `s` must keep.
    abbrev pub Keeps : S → Exit S C → Type 0
    Keeps s (auto p t) = (c c' : C) → p c ≡ some c' → Inv s c → Inv t c'
    Keeps s (external g t) =
        (e : E) (c : C)
        → Reach s₀ c₀ s c
        → Inv s c
        → (g (d.inject e c) ≡ true → Inv t (d.inject e c))
          × (g (d.inject e c) ≡ false → Inv s (d.inject e c))
    Keeps s (branch f m) = (c : C) → Inv s c → All (λ b. text_eq b.0 (f c) ≡ true → Inv b.1 c) m
    Keeps s stop = Unit

    chosen :
        (c : C) (label : Text) (m : Dict Text S) (t : S)
        → All (λ b. text_eq b.0 label ≡ true → Inv b.1 c) m
        → get label m ≡ some t
        → Inv t c
    unfolding get
    chosen c label [] t h e = absurd (cc)
    chosen c label ((j, u) ∷ m) t (here_kept, h) e = elim (Bool-cases (text_eq j label)) [
      | inl same ↦ let is_t : u ≡ t = ground arith in subst (λ x. Inv x c) is_t (here_kept same)
      | inr other ↦ chosen c label m t h (rw other at e)
    ]

    module _ (keeps : (s : S) → Keeps s (d.from s))
        (failing : (s : S) (c : C) → Inv s c → Inv d.on_any_error c) where
      Step-Inv : {s t : S} {c c' : C} → Reach s₀ c₀ s c → Step s c t c' → Inv s c → Inv t c'
      Step-Inv {s} {t} {c} {c'} r (auto_step e ok) i = subst (Keeps s) e (keeps s) c c' ok i
      Step-Inv {s} {t} {c} {c'} r (external_step x e ok) i =
          (subst (Keeps s) e (keeps s) x c r i).0 ok
      Step-Inv {s} {t} {c} {c'} r (rejected_step x e no_ok) i =
          (subst (Keeps s) e (keeps s) x c r i).1 no_ok
      Step-Inv {s} {t} {c} {c'} r (branch_step e ok) i =
          chosen c _ _ t (subst (Keeps s) e (keeps s) c i) ok
      Step-Inv {s} {t} {c} {c'} r (error_step live) i = failing s c i

      -- What the exits keep holds wherever the flow gets to.
      pub Reach-Inv : {t : S} {c' : C} → Inv s₀ c₀ → Reach s₀ c₀ t c' → Inv t c'
      Reach-Inv i here = i
      Reach-Inv i (next r st) = Step-Inv r st (Reach-Inv i r)
