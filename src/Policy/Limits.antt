-- ===== src/Policy/Limits.antt =====
-- What the vendor policy allows (control_plane/policy_check.py).
use nemoclaw_smb.Base.{ℕ, ◌≡◌, ◌⊎◌, String, true, false, Option, none, some, arith, member}
use nemoclaw_smb.Base.Act.{ok, err, service_error}
use nemoclaw_smb.Platform.{Platform, PolicyFile}
use nemoclaw_smb.Policy.{
  blocked, monthly_limit, fallback_limit, mock_check, load_policy, check_policy_c1, check_policy,
  c1_check, is_set,
}

module _ ⦃p : Platform⦄ where
  -- The limit that the local policy holds a vendor to.
  abbrev pub limit_of : String → PolicyFile p.Float → p.Float
  limit_of vendor policy = elim (monthly_limit vendor policy) [
    | some x ↦ x
    | none ↦ fallback_limit policy
  ]

  -- The local policy allows a spend exactly when the vendor is not blocked and the amount is at most
  -- the vendor's monthly limit, or the default limit where the vendor has none of its own.
  pub mock_check_allows :
      (vendor : String) (amount : p.Float) (policy : PolicyFile p.Float)
      → ((mock_check vendor amount policy).allowed ≡ true
          → (member vendor (blocked policy) ≡ false)
            × (p.le amount (limit_of vendor policy) ≡ true))
        × ((member vendor (blocked policy) ≡ false)
            → p.le amount (limit_of vendor policy) ≡ true
            → (mock_check vendor amount policy).allowed ≡ true)
  unfolding mock_check
  mock_check_allows vendor amount policy = (λ h. ground arith, λ free fits. ground arith)

  -- With a policy file that can be read, and a ConductorOne key whose service fails with a `C1ClientError` or no
  -- key at all, `check_policy` decides as the local policy.
  pub check_policy_local :
      (tick : ℕ) (vendor : String) (amount : p.Float) (requester : String) (path : Option String)
      (policy : PolicyFile p.Float)
      → load_policy path ≡ ok policy
      → (is_set (p.getenv "C1_API_KEY") ≡ false)
        ⊎ (check_policy_c1 tick amount requester ≡ err service_error)
      → check_policy tick vendor amount requester path ≡ ok (mock_check vendor amount policy)
  unfolding check_policy c1_check
  check_policy_local tick vendor amount requester path policy loaded why = ground arith
