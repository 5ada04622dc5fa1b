-- ===== src/Governance.antt =====
-- The governance of non-human identities (control_plane/c1_governance.py).
pub mod Denials
use nemoclaw_smb.Base.{
  ℕ, ◌+◌, ◌&&◌, String, Bool, true, false, Option, none, some, List, [], ◌∷◌, concat, str_eq,
  if◌then◌else◌,
}
use nemoclaw_smb.Base.Dict.{Dict, contains, put}
use nemoclaw_smb.Base.Act.{Result, ok, err}
use nemoclaw_smb.Platform.{Platform, Moment}
use nemoclaw_smb.Policy.{check_policy, reason_text}

pub data Source : Type 0 where
  baton_carryall synthetic : Source

pub record AuthorizeResult : Type 0 where
  pub allowed : Bool
  pub reason : String
  pub source : Source

-- A scoped identity with its times of issue and expiry.
pub record Nhi : Type 0 where
  pub id : String
  pub agent_id : String
  pub scopes : List String
  pub parent : String
  pub issued_at : ℕ
  pub expiry : ℕ
  pub governance_source : String
  pub status : String

-- `_RESOURCE_ROUTES.get((action, resource))`: the address and the action for Baton
unfoldable pub route_of : String → String → Option (String × String)
route_of action resource =
    if str_eq action "price" && str_eq resource "str-platform"
    then some ("slos://vaults/platform/str", "price")
    else if str_eq action "aeo-audit" && str_eq resource "str-platform"
    then some ("slos://vaults/platform/str", "aeo-audit")
    else if str_eq action "card:issue" && str_eq resource "stripe-issuing"
    then some ("slos://vaults/cards/cleaning", "cleaning")
    else none

-- PRINCIPAL_MAP of control_plane/c1z_fixtures/__init__.py
abbrev principal_map : Dict String
principal_map =
    ("cleaner-subagent", "cleaner-subagent")
    ∷ ("str-platform-agent", "str-platform-agent")
    ∷ ("owner-agent", "owner-agent")
    ∷ []

-- `principal_map.setdefault(agent_id, agent_id)`
abbrev pub principals_for : String → Dict String
principals_for agent_id =
    if contains agent_id principal_map then principal_map else put agent_id agent_id principal_map

abbrev pub scopes_or : List String → List String
scopes_or [] = "nhi:placeholder" ∷ []
scopes_or (s ∷ ss) = s ∷ ss

module _ ⦃p : Platform⦄ where
  unfoldable pub issue_nhi : Moment → String → List String → ℕ → Nhi
  issue_nhi now agent_id scopes ttl_seconds = record {
    id = concat ("nhi-" ∷ agent_id ∷ "-" ∷ p.show_int now.secs ∷ []);
    agent_id = agent_id;
    scopes = scopes;
    parent = "conductorone://demo/str-agent-platform";
    issued_at = now.secs;
    expiry = now.secs + ttl_seconds;
    governance_source = "conductorone-synthetic-demo";
    status = "active";
  }

  -- `_resolve_c1z_path`: an environment path that exists, and otherwise the bundled graph
  unfoldable pub resolve_c1z_path : Option String
  resolve_c1z_path = elim (p.getenv "CARRYALL_BATON_C1Z") [
    | none ↦ p.c1z_fixture
    | some path ↦
        if str_eq path ""
        then p.c1z_fixture
        else if p.path_exists path
        then some path
        else p.c1z_fixture
  ]

  -- `_baton_authorize`: `none` where there is no route, no graph or no answer
  unfoldable pub baton_authorize : ℕ → Nhi → String → String → Option AuthorizeResult
  baton_authorize tick nhi action resource = elim (route_of action resource) [
    | none ↦ none
    | some (uri, baton_action) ↦ elim resolve_c1z_path [
      | none ↦ none
      | some path ↦
          elim (p.check_access tick path (principals_for nhi.agent_id) nhi.agent_id
            (scopes_or nhi.scopes) baton_action uri) [
              | none ↦ none
              | some (allowed, reason) ↦
                  some (record { allowed = allowed; reason = reason; source = baton_carryall })
            ]
    ]
  ]

  -- `_synthetic_authorize`: every exception of the policy check allows; its text is left out
  unfoldable pub synthetic_authorize : ℕ → Nhi → String → String → AuthorizeResult
  synthetic_authorize tick nhi action resource =
      let pseudo_vendor = concat (resource ∷ ":" ∷ action ∷ []) in
      elim (check_policy tick pseudo_vendor (p.of_ℕ 0) nhi.agent_id none) [
        | ok d ↦ record {
          allowed = d.allowed;
          reason = reason_text pseudo_vendor (p.of_ℕ 0) nhi.agent_id d;
          source = synthetic;
        }
        | err _ ↦ record {
          allowed = true;
          reason = "synthetic default: policy_check unavailable";
          source = synthetic;
        }
      ]

  unfoldable pub authorize : ℕ → Nhi → String → String → AuthorizeResult
  authorize tick nhi action resource = elim (baton_authorize tick nhi action resource) [
    | some d ↦ d
    | none ↦ synthetic_authorize tick nhi action resource
  ]
