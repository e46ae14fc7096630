-- ===== src/Gateway/Access/Laws.antt =====
-- Who gets through to a backend.
use mathlib.Core.Path.{subst}
use mathlib.Core.Bool.{false≢true}
use volta_gateway.Prelude.{
  ◌≤◌, ◌≡◌, ◌≢◌, ◌∙◌, sym, refl, ◌⊎◌, ◌↔◌, inl, inr, Bool, true, false, not, Option, none, some, [],
  arith, is_some, Text, In,
}
use volta_gateway.Prelude.Dict.{Dict, get}
use volta_gateway.AuthCore.Policy.{allow, default_policy, is_known_role, rank, enforce_min_role}
use volta_gateway.AuthCore.Policy.Laws.{enforce_min_role_iff}
use volta_gateway.Gateway.Rules.{require}
use volta_gateway.Gateway.Routing.{RouteInfo}
use volta_gateway.Gateway.Auth.{AuthResult, authenticated}
use volta_gateway.Gateway.Access.{
  proceed, bypass_match, auth_rule_match, route_is_public, route_is_soft, skip_auth,
  effective_min_role, with_headers, stop, authenticate, roles_of, required_role, role_satisfied,
  access,
}

-- The caller's headers name a role that reaches the required one, which the policy knows.
pub record HasRole (required : Text) (headers : Dict Text Text) : Type 0 where
  pub known : is_known_role default_policy (required_role required) ≡ true
  pub reached :
      (r : Text) × In r (roles_of headers)
      × (rank default_policy r ≤ rank default_policy (required_role required))

role_satisfied-HasRole :
    (required : Text) (is_public : Bool) (headers : Dict Text Text)
    → role_satisfied (some required) is_public false headers ≡ true
    → (is_public ≡ false) × HasRole required headers
unfolding role_satisfied
role_satisfied-HasRole required is_public headers h =
    let allowed : enforce_min_role default_policy (roles_of headers) (required_role required)
        ≡ allow =
      ground arith in
    let (known, reached) = (enforce_min_role_iff default_policy _ _).0 allowed in
    (ground arith, record { known = known; reached = reached })

HasRole-role_satisfied :
    (required : Text) (headers : Dict Text Text)
    → HasRole required headers
    → role_satisfied (some required) false false headers ≡ true
unfolding role_satisfied
HasRole-role_satisfied required headers has =
    let allowed : enforce_min_role default_policy (roles_of headers) (required_role required)
        ≡ allow =
      (enforce_min_role_iff default_policy _ _).1 (has.known, has.reached) in
    let known = has.known in ground arith

-- A step that stops refuses the request.
authenticate-stop :
    (skip soft : Bool) (min_role : Option Text) (check : Option Text → Bool → AuthResult)
    (headers : Dict Text Text) (backend : Text)
    → authenticate skip soft min_role check ≢ stop (proceed headers backend)
unfolding authenticate
authenticate-stop skip soft min_role check headers backend h = ground arith

not-In-nil : {r : Text} → ¬ (In r [])
not-In-nil i = elim i [ ]

-- An anonymous caller has no role.
not-HasRole-nil : (required : Text) → ¬ (HasRole required [])
unfolding roles_of get
not-HasRole-nil required h = not-In-nil h.reached.1

-- What a call that goes through has been checked for.
module _ (route : Option RouteInfo) (path : Text) (check : Option Text → Bool → AuthResult)
    (headers : Dict Text Text) where
  -- Where the headers come from: nowhere, from the client, which may fall back unless a role is asked
  -- for, or for a soft route from either, and then the client may always fall back.
  abbrev pub HasOrigin : Type 0
  HasOrigin =
      ((skip_auth route path ≡ true) × (headers ≡ []))
      ⊎ ((skip_auth route path ≡ false)
          × (route_is_soft route ≡ true)
          × ((headers ≡ []) ⊎ (check (effective_min_role route path) true ≡ authenticated headers)))
      ⊎ ((skip_auth route path ≡ false)
          × (route_is_soft route ≡ false)
          × (check (effective_min_role route path) (not (is_some (effective_min_role route path)))
              ≡ authenticated headers))

  pub record IsAuthorised : Type 0 where
    pub origin : HasOrigin
    pub role :
        (required : Text)
        → effective_min_role route path ≡ some required
        → bypass_match route path ≡ none
        → (route_is_public route ≡ false) × HasRole required headers

  authenticate-HasOrigin :
      authenticate
          (skip_auth route path)
          (route_is_soft route)
          (effective_min_role route path)
          check
        ≡ with_headers headers
      → HasOrigin
  unfolding authenticate
  authenticate-HasOrigin h = ground arith

  access-inv :
      (selected backend : Text)
      → access route path selected check ≡ proceed headers backend
      → (authenticate
            (skip_auth route path)
            (route_is_soft route)
            (effective_min_role route path)
            check
          ≡ with_headers headers)
        × (role_satisfied
              (effective_min_role route path)
              (route_is_public route)
              (is_some (bypass_match route path))
              headers
            ≡ true)
  unfolding access
  access-inv selected backend h = ground (
    arith,
    authenticate-stop (skip_auth route path) (route_is_soft route) (effective_min_role route path)
        check headers backend,
  )

  -- The headers of a request that goes through come from a skipped check, and then there are none,
  -- from the answer of the client, which may fall back unless a role is asked for, or for a soft
  -- route from either, and then the client may always fall back; a required role that no bypass
  -- path lifts is one that the policy knows and the headers reach, on a route that is not public.
  pub access-IsAuthorised :
      (selected backend : Text)
      → access route path selected check ≡ proceed headers backend
      → IsAuthorised
  access-IsAuthorised selected backend h =
      let (passed, satisfied) = access-inv selected backend h in
      record {
        origin = authenticate-HasOrigin passed;
        role = λ required e b.
            role_satisfied-HasRole required (route_is_public route) headers
              (rw (e, b) at satisfied);
      }

  access-selected :
      (selected backend : Text)
      → bypass_match route path ≡ none
      → access route path selected check ≡ proceed headers backend
      → backend ≡ selected
  unfolding access
  access-selected selected backend b h = ground (
    arith,
    authenticate-stop (skip_auth route path) (route_is_soft route) (effective_min_role route path)
        check headers backend,
  )

  -- Where a role is asked for and authentication is not skipped, the client may fall back on a soft
  -- route only.
  authenticate-soft :
      (soft : Bool) (role : Text)
      → check (some role) soft ≡ authenticated headers
      → authenticate false soft (some role) check ≡ with_headers headers
  unfolding authenticate
  authenticate-soft soft role asked = ground arith

  -- Under a rule that asks for a role, with no bypass path, a request goes through exactly if the route
  -- is not public, the client answers that the caller is authenticated when it is asked for that role,
  -- and the headers of that answer reach it; on a soft route, and only there, the client may answer
  -- by its fallback, though a role is asked for.
  pub require-HasRole :
      (role selected backend : Text)
      → auth_rule_match route path ≡ some (require role)
      → bypass_match route path ≡ none
      → (access route path selected check ≡ proceed headers backend) ↔ (
          (route_is_public route ≡ false)
          × HasRole role headers
          × (check (some role) (route_is_soft route) ≡ authenticated headers)
          × (backend ≡ selected))
  require-HasRole role selected backend e b =
      let min : effective_min_role route path ≡ some role =
        unfold effective_min_role in rw e refl in
      let closed : route_is_public route ≡ false → skip_auth route path ≡ false =
        λ shut. unfold skip_auth in rw (shut, b, e) refl in
      (
        λ h.
            let authorised = access-IsAuthorised selected backend h in
            let (shut, has) = authorised.role role min b in
            (
              shut,
              has,
              elim authorised.origin [
                | inl (skipped, _) ↦ absurd (false≢true (sym (closed shut) ∙ skipped))
                | inr (inl (_, _, inl anonymous)) ↦
                    absurd (not-HasRole-nil role (subst (HasRole role) anonymous has))
                | inr (inl (_, soft, inr checked)) ↦ rw (soft, ← min) checked
                | inr (inr (_, hard, checked)) ↦ rw hard (rw min at checked)
              ],
              access-selected selected backend b h,
            ),
        λ (shut, has, asked, same).
            let open_only = closed shut in
            let passed = authenticate-soft (route_is_soft route) role asked in
            let satisfied = HasRole-role_satisfied role headers has in
            unfold access in ground arith,
      )
