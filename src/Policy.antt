-- ===== src/Policy.antt =====
-- The vendor policy (control_plane/policy_check.py) and its ConductorOne backend
-- (control_plane/c1_client.py). A reason is the message's form with the values that it shows.
pub mod Limits
use nemoclaw_smb.Base.{
  ℕ, String, Bool, true, false, not, ◌&&◌, ◌||◌, Option, none, some, List, [], ◌∷◌, ◌==◌, str_eq,
  concat, member, remove_prefix, rstrip_slash, if◌then◌else◌,
}
use nemoclaw_smb.Base.Dict.{Dict, get}
use nemoclaw_smb.Base.Act.{Result, ok, err, os_error, value_error, service_error}
use nemoclaw_smb.Json.{Value, str, arr, Items, nil, cons}
use nemoclaw_smb.Platform.{Platform, Response, PolicyFile}

pub data Reason : Type 0 where
  blocked_vendor within_limit over_limit default_within default_over : Reason
  c1_default_within c1_default_over c1_granted c1_not_granted : Reason

-- `os.environ.get(name, "")`, and whether a value is there and not empty
abbrev pub env_text : Option String → String
env_text none = ""
env_text (some s) = s

abbrev pub is_set : Option String → Bool
is_set none = false
is_set (some s) = not (str_eq s "")

module _ ⦃p : Platform⦄ where
  open p use {Float}

  pub record Decision : Type 0 where
    pub allowed : Bool
    pub reason : Reason
    pub limit : Option Float

  -- The message of a decision.
  pub reason_text : String → Float → String → Decision → String
  reason_text vendor amount requester d =
      let shown = p.show_float amount in
      let limit : String = elim d.limit [ none ↦ "" | some x ↦ p.show_float x ] in
      let entitlement = env_text (p.getenv "C1_VENDOR_ENTITLEMENT_ID") in
      concat (elim d.reason [
        | blocked_vendor ↦ vendor ∷ " is on the blocked-vendor list" ∷ []
        | within_limit ↦
            vendor ∷ " approved: $" ∷ shown ∷ " within $" ∷ limit ∷ " monthly limit" ∷ []
        | over_limit ↦ vendor ∷ " denied: $" ∷ shown ∷ " exceeds $" ∷ limit ∷ " monthly limit" ∷ []
        | default_within ↦
            "Unknown vendor '" ∷ vendor ∷ "' approved: $" ∷ shown ∷ " within default $" ∷ limit
            ∷ " limit" ∷ []
        | default_over ↦
            "Unknown vendor '" ∷ vendor ∷ "' denied: $" ∷ shown ∷ " exceeds default $" ∷ limit
            ∷ " limit" ∷ []
        | c1_default_within ↦ "C1: " ∷ vendor ∷ " approved by default limit $" ∷ limit ∷ []
        | c1_default_over ↦
            "C1: " ∷ vendor ∷ " denied — $" ∷ shown ∷ " exceeds default limit $" ∷ limit ∷ []
        | c1_granted ↦
            "C1: " ∷ requester ∷ " holds an active grant for " ∷ vendor ∷ " (entitlement "
            ∷ entitlement ∷ ")" ∷ []
        | c1_not_granted ↦
            "C1: " ∷ requester ∷ " has no active grant for " ∷ vendor ∷ " (entitlement "
            ∷ entitlement ∷ ")" ∷ []
      ])

  -- the three branches that compare an amount with a limit
  abbrev pub capped : Float → Float → Reason → Reason → Decision
  capped amount limit within over =
      if p.le amount limit
      then record { allowed = true; reason = within; limit = some limit }
      else record { allowed = false; reason = over; limit = some limit }

  abbrev pub blocked : PolicyFile Float → List String
  blocked policy = elim policy.blocked_vendors [ none ↦ [] | some l ↦ l ]

  abbrev pub monthly_limit : String → PolicyFile Float → Option Float
  monthly_limit vendor policy = elim policy.vendors [ none ↦ none | some d ↦ get vendor d ]

  abbrev pub fallback_limit : PolicyFile Float → Float
  fallback_limit policy = elim policy.default_limit [ none ↦ p.of_ℕ 1000 | some x ↦ x ]

  unfoldable pub mock_check : String → Float → PolicyFile Float → Decision
  mock_check vendor amount policy =
      if member vendor (blocked policy)
      then record { allowed = false; reason = blocked_vendor; limit = none }
      else elim (monthly_limit vendor policy) [
        | some limit ↦ capped amount limit within_limit over_limit
        | none ↦ capped amount (fallback_limit policy) default_within default_over
      ]

  -- `_load_policy`: the argument, then the environment, then the bundled file; an empty text counts
  -- as none.
  unfoldable pub load_policy : Option String → Result (PolicyFile Float)
  load_policy path =
      let resolved =
        if is_set path
        then env_text path
        else if is_set (p.getenv "NEMOCLAW_POLICY_PATH")
        then env_text (p.getenv "NEMOCLAW_POLICY_PATH")
        else "control_plane/policy_mock.yaml" in
      elim (p.read_policy resolved) [ none ↦ err os_error | some f ↦ ok f ]

  abbrev text_of : Option (Value Float) → String
  text_of (some (str s)) = s
  text_of _ = ""

  -- `fetch_c1_token`: every failure is a `C1ClientError`, and so is a missing token.
  pub fetch_c1_token : ℕ → String → String → String → Result String
  fetch_c1_token tick client_id client_secret base_url =
      elim (p.client_assertion tick client_id client_secret
        (remove_prefix "https://" (rstrip_slash base_url))) [
          | none ↦ err service_error
          | some _ ↦ elim (p.http tick (concat (rstrip_slash base_url ∷ "/auth/v1/token" ∷ []))) [
            | none ↦ err service_error
            | some resp ↦
                if not (resp.status_code == 200) then err service_error else elim resp.json [
                  | none ↦ err service_error
                  | some d ↦
                      if str_eq (text_of (get "access_token" d)) ""
                      then err service_error
                      else ok (text_of (get "access_token" d))
                ]
          ]
        ]

  abbrev is_filled : Option (Value Float) → Bool
  is_filled (some (arr (cons _ _))) = true
  is_filled _ = false

  -- `_entitlement_has_grant`: 404 is no grant, any other status but 200 is an error.
  pub entitlement_has_grant : ℕ → String → String → String → String → Result Bool
  entitlement_has_grant tick base_url app_id entitlement_id user_id =
      elim (p.http tick (
        concat (
          rstrip_slash base_url
          ∷ "/api/v1/apps/"
          ∷ app_id
          ∷ "/entitlements/"
          ∷ entitlement_id
          ∷ "/users/"
          ∷ user_id
          ∷ "/grants"
          ∷ []))) [
            | none ↦ err service_error
            | some resp ↦
                if resp.status_code == 404
                then ok false
                else if not (resp.status_code == 200)
                then err service_error
                else elim resp.json [
                  | none ↦ err service_error
                  | some d ↦ ok (is_filled (get "list" d) || is_filled (get "grants" d))
                ]
          ]

  -- `float(os.environ.get("C1_DEFAULT_LIMIT", "1000"))`
  abbrev pub c1_default_limit : Option Float
  c1_default_limit =
      p.parse_float (elim (p.getenv "C1_DEFAULT_LIMIT") [ none ↦ "1000" | some s ↦ s ])

  -- `check_policy_c1` from where the environment has been read
  pub c1_decide : ℕ → Float → String → Float → Result Decision
  c1_decide tick amount requester default_limit =
      let base_url = env_text (p.getenv "C1_BASE_URL") in
      let app_id = env_text (p.getenv "C1_VENDOR_APP_ID") in
      let entitlement_id = env_text (p.getenv "C1_VENDOR_ENTITLEMENT_ID") in
      if str_eq base_url ""
      then err service_error
      else elim (fetch_c1_token tick (env_text (p.getenv "C1_API_KEY"))
          (env_text (p.getenv "C1_API_SECRET")) base_url) [
            | err x ↦ err x
            | ok _ ↦
                if str_eq app_id "" || str_eq entitlement_id ""
                then ok (capped amount default_limit c1_default_within c1_default_over)
                else elim (entitlement_has_grant (tick) base_url app_id entitlement_id requester) [
                  | err x ↦ err x
                  | ok true ↦ ok (record { allowed = true; reason = c1_granted; limit = none })
                  | ok false ↦
                      ok (record { allowed = false; reason = c1_not_granted; limit = none })
                ]
          ]

  pub check_policy_c1 : ℕ → Float → String → Result Decision
  check_policy_c1 tick amount requester = elim c1_default_limit [
    | none ↦ err value_error
    | some limit ↦ c1_decide tick amount requester limit
  ]

  -- `_c1_check`: a `C1ClientError` falls back to the local policy; another exception goes on.
  pub c1_check : ℕ → String → Float → String → PolicyFile Float → Result Decision
  c1_check tick vendor amount requester policy = elim (check_policy_c1 tick amount requester) [
    | ok d ↦ ok d
    | err service_error ↦ ok (mock_check vendor amount policy)
    | err x ↦ err x
  ]

  unfoldable pub check_policy : ℕ → String → Float → String → Option String → Result Decision
  check_policy tick vendor amount requester path = elim (load_policy path) [
    | err x ↦ err x
    | ok policy ↦
        if is_set (p.getenv "C1_API_KEY")
        then c1_check tick vendor amount requester policy
        else ok (mock_check vendor amount policy)
  ]
