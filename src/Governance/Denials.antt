-- ===== src/Governance/Denials.antt =====
-- What a denial rests on (control_plane/c1_governance.py).
use nemoclaw_smb.Base.{
  ℕ, ◌≡◌, ◌⊎◌, inl, inr, String, Bool, false, none, some, ◌∷◌, [], arith, concat, Option-cases,
}
use mathlib.Core.Path.{subst}
use nemoclaw_smb.Base.Act.{Plain-cases, ok}
use nemoclaw_smb.Platform.{Platform}
use nemoclaw_smb.Policy.{Decision, check_policy}
use nemoclaw_smb.Governance.{
  AuthorizeResult, Nhi, authorize, baton_authorize, principals_for, resolve_c1z_path, route_of,
  scopes_or, synthetic_authorize,
}

module _ ⦃p : Platform⦄ where
  -- The Baton backend has answered for the route of the action.
  pub record IsBatonAnswer (tick : ℕ) (nhi : Nhi) (action resource : String) (allowed : Bool)
      : Type 0 where
    pub route : String × String
    pub path : String
    pub reason : String
    pub routed : route_of action resource ≡ some route
    pub found : resolve_c1z_path ≡ some path
    pub answered :
        p.check_access tick path
          (principals_for nhi.agent_id)
          nhi.agent_id
          (scopes_or nhi.scopes)
          route.1
          route.0
        ≡ some (allowed, reason)

  baton_authorize_lem :
      (tick : ℕ) (nhi : Nhi) (action resource : String) {d : AuthorizeResult}
      → baton_authorize tick nhi action resource ≡ some d
      → IsBatonAnswer tick nhi action resource d.allowed
  unfolding baton_authorize
  baton_authorize_lem tick nhi action resource {d} h =
      elim (Option-cases (route_of action resource)) [
        | inl e ↦ ground arith
        | inr ((uri, baton_action), e) ↦ elim (Option-cases resolve_c1z_path) [
          | inl e2 ↦ ground arith
          | inr (path, e2) ↦
              elim (Option-cases (
                p.check_access tick path (principals_for nhi.agent_id) nhi.agent_id
                  (scopes_or nhi.scopes) baton_action uri)) [
                    | inl e3 ↦ ground arith
                    | inr ((allowed, reason), e3) ↦ record {
                      route = (uri, baton_action);
                      path = path;
                      reason = reason;
                      routed = e;
                      found = e2;
                      answered = ground arith;
                    }
                  ]
        ]
      ]

  -- A denial rests on an answer: either the Baton backend denies the action on its route, or the policy
  -- check, for no money, of the resource and the action as a vendor returns a denial.
  pub authorize_denies :
      (tick : ℕ) (nhi : Nhi) (action resource : String)
      → (authorize tick nhi action resource).allowed ≡ false
      → IsBatonAnswer tick nhi action resource false
        ⊎ ((d : Decision) × (check_policy tick
                (concat (resource ∷ ":" ∷ action ∷ []))
                (p.of_ℕ 0)
                nhi.agent_id
                none
              ≡ ok d)
            × (d.allowed ≡ false))
  unfolding authorize synthetic_authorize
  authorize_denies tick nhi action resource h =
      elim (Option-cases (baton_authorize tick nhi action resource)) [
        | inr (d, e) ↦ inl (
            subst (IsBatonAnswer tick nhi action resource) (ground arith)
              (baton_authorize_lem tick nhi action resource e))
        | inl e ↦
            elim (Plain-cases (
              check_policy tick (concat (resource ∷ ":" ∷ action ∷ [])) (p.of_ℕ 0) nhi.agent_id
                none)) [ inl (d, e2) ↦ inr (d, e2, ground arith) | inr (x, e2) ↦ ground arith ]
      ]
