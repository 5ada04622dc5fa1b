-- ===== src/Tenancy.antt =====
-- Tenants and where their model calls may go (agent/tenancy.py, agent/claw_router.py).
pub mod Routing
use nemoclaw_smb.Base.{
  String, Bool, true, false, not, ◌&&◌, Option, none, some, List, [], ◌∷◌, member, str_eq,
  if◌then◌else◌,
}
use nemoclaw_smb.Base.Dict.{Dict}
use nemoclaw_smb.Base.Act.{Result, ok, err, config_error, runtime_error}
use nemoclaw_smb.Json.{Value}
use nemoclaw_smb.Platform.{Platform, TenantFile}

abbrev pub sensitivity_tiers : List String
sensitivity_tiers = "public" ∷ "internal" ∷ "confidential" ∷ "restricted" ∷ []

abbrev pub finance_tiers : List String
finance_tiers = "confidential" ∷ "restricted" ∷ []

abbrev pub routing_values : List String
routing_values = "local" ∷ "frontier" ∷ []

-- What `route_llm` returns: the local client, with a pinned model if there is one, or Hermes.
pub data Route : Type 0 where
  call_local : Option String → Route
  call_hermes : Route

abbrev or_default : Option String → String → String
or_default none other = other
or_default (some s) other = s

-- a text or `None` where it is empty
abbrev filled : Option String → Option String
filled none = none
filled (some s) = if str_eq s "" then none else some s

module _ ⦃p : Platform⦄ where
  open p use {Float}

  pub record Tenant : Type 0 where
    pub slug : String
    pub data_root : String
    pub llm_routing : String
    pub sensitivity : String
    pub mode : String
    pub thresholds : Dict (Value Float)
    pub brain_path : String
    pub audit_path : String
    pub local_model : Option String
    pub ingestion : Dict (Value Float)

  abbrev items_or : Option (Dict (Value Float)) → Dict (Value Float)
  items_or none = []
  items_or (some d) = d

  -- `_resolve_paths`, one path at a time
  pub resolve_root : String → TenantFile Float → String
  resolve_root config_dir raw =
      let root : String = or_default raw.data_root "data" in
      if p.is_absolute root then p.path_text root else p.resolve_path (p.join_path config_dir root)

  pub under_root : String → String → String
  under_root data_root path =
      if p.is_absolute path then p.path_text path else p.join_path data_root path

  unfoldable pub validate : Tenant → Result Tenant
  validate tenant =
      if not (member tenant.sensitivity sensitivity_tiers)
      then err config_error
      else if not (member tenant.llm_routing routing_values)
      then err config_error
      else if member tenant.sensitivity finance_tiers && not (str_eq tenant.llm_routing "local")
      then err config_error
      else ok tenant

  abbrev pub tenant_of : String → String → TenantFile Float → Tenant
  tenant_of slug config_dir raw =
      let data_root = resolve_root config_dir raw in
      record {
        slug = slug;
        data_root = data_root;
        llm_routing = or_default raw.llm_routing "local";
        sensitivity = or_default raw.sensitivity "internal";
        mode = or_default raw.mode "advisory";
        thresholds = items_or raw.thresholds;
        brain_path = under_root data_root (or_default raw.brain_path "brain");
        audit_path = under_root data_root (or_default raw.audit_path "audit");
        local_model = filled raw.local_model;
        ingestion = items_or raw.ingestion;
      }

  -- the argument, then the environment, then the directory of the repository
  abbrev pub root_or : Option String → String
  root_or root = elim (filled root) [
    | some r ↦ r
    | none ↦ or_default (p.getenv "NEMOCLAW_TENANTS_ROOT") "tenants"
  ]

  unfoldable pub load_tenant : String → Option String → Result Tenant
  load_tenant slug root =
      let config_dir = p.join_path (root_or root) slug in
      elim (p.read_tenant (p.join_path config_dir "config.yaml")) [
        | none ↦ err config_error
        | some raw ↦ validate (tenant_of slug config_dir raw)
      ]

  pub route_llm : Tenant → Route
  route_llm tenant =
      if str_eq tenant.llm_routing "local" then call_local tenant.local_model else call_hermes

  pub assert_no_frontier : Tenant → Result (Unit {0})
  assert_no_frontier tenant =
      if str_eq tenant.llm_routing "local"
      then err runtime_error
      else if member tenant.sensitivity finance_tiers
      then err runtime_error
      else ok tt
