-- ===== src/Tenancy/Routing.antt =====
-- Sensitive tenants stay local (agent/tenancy.py, agent/claw_router.py).
use nemoclaw_smb.Base.{◌≡◌, inl, inr, String, true, Option, arith, member, Option-cases}
use nemoclaw_smb.Base.Act.{ok, err, runtime_error}
use nemoclaw_smb.Platform.{Platform}
use nemoclaw_smb.Tenancy.{
  Tenant, assert_no_frontier, call_local, finance_tiers, load_tenant, root_or, route_llm,
  routing_values, sensitivity_tiers, tenant_of, validate,
}

module _ ⦃p : Platform⦄ where
  -- A tenant with a known tier and a known routing; if its tier is one of finance, then its calls go to
  -- the local model, and the guard refuses a frontier call.
  pub record IsConfined (t : Tenant) : Type 0 where
    pub tier : member t.sensitivity sensitivity_tiers ≡ true
    pub routing : member t.llm_routing routing_values ≡ true
    pub stays : member t.sensitivity finance_tiers ≡ true → route_llm t ≡ call_local t.local_model
    pub guarded :
        member t.sensitivity finance_tiers ≡ true → assert_no_frontier t ≡ err runtime_error

  validate-IsConfined : (t : Tenant) {t' : Tenant} → validate t ≡ ok t' → IsConfined t'
  unfolding validate route_llm assert_no_frontier
  validate-IsConfined t h = record {
    tier = ground arith;
    routing = ground arith;
    stays = λ finance. ground arith;
    guarded = λ finance. ground arith;
  }

  -- If a tenant is loaded, then its tier and its routing are known ones, and if its tier is confidential
  -- or restricted, then its calls go to the local model and the guard refuses a frontier call.
  pub load_tenant-IsConfined :
      (slug : String) (root : Option String) {t : Tenant}
      → load_tenant slug root ≡ ok t
      → IsConfined t
  unfolding load_tenant
  load_tenant-IsConfined slug root {t} h =
      let config_dir = p.join_path (root_or root) slug in
      elim (Option-cases (p.read_tenant (p.join_path config_dir "config.yaml"))) [
        | inl e ↦ ground arith
        | inr (raw, e) ↦ validate-IsConfined (tenant_of slug config_dir raw) {t' = t} (ground arith)
      ]
