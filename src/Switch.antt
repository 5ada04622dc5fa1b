-- ===== src/Switch.antt =====
-- A switch from one vendor to another (procurement/vendor_switcher.py, and `_monthly_equivalent` of
-- procurement/vendor_analyzer.py).
pub mod Cascade
use Prim.Native.String.{slice}
use nemoclaw_smb.Base.{
  ◌+◌, String, Bool, Option, none, some, List, [], ◌∷◌, ◌++◌, concat, length, str_eq, ◌&&◌,
  if◌then◌else◌,
}
use nemoclaw_smb.Base.Dict.{Dict, get}
use nemoclaw_smb.Base.Act.{Act, ok, gets, ◌>>=◌, ◌>>◌}
use nemoclaw_smb.Json.{Value, null, str, real, object}
use nemoclaw_smb.Platform.{Platform}
use nemoclaw_smb.Policy.{Decision, check_policy, reason_text}
use nemoclaw_smb.Graph.{add_vendor, vendor_history}
use nemoclaw_smb.Ledger.{reconcile}
use nemoclaw_smb.Audit.{append_action}
use nemoclaw_smb.Stripe.Fees.{cancel_subscription}
use nemoclaw_smb.Stripe.Subscriptions.{create_subscription}
use nemoclaw_smb.World.{World, on_audit, on_graph, outside}
use nemoclaw_smb.Resolve.{on_ledger}

module _ ⦃p : Platform⦄ where
  open p use {Float}

  pub record Step : Type 0 where
    pub step : String
    pub status : Value Float
    pub detail : String

  -- The dict `new_vendor`, whose keys may be missing except for the first two; the numbers are floats.
  pub record NewVendor : Type 0 where
    pub vendor : String
    pub amount : Float
    pub frequency : Option String
    pub monthly_equivalent : Option Float
    pub category : Option String
    pub old_monthly_equivalent : Option Float

  pub record Switched : Type 0 where
    pub steps : List Step
    pub old_vendor : String
    pub new_vendor : NewVendor
    pub monthly_savings : Float
    pub outcome : String
    pub audit_entry_hash : Value Float

  abbrev optional : String → Option (Value Float) → Dict (Value Float)
  optional key none = []
  optional key (some v) = (key, v) ∷ []

  abbrev text_value : Option String → Option (Value Float)
  text_value none = none
  text_value (some s) = some (str s)

  abbrev float_value : Option Float → Option (Value Float)
  float_value none = none
  float_value (some x) = some (real x)

  -- the record as the dict that it stands for
  abbrev vendor_dict : NewVendor → Dict (Value Float)
  vendor_dict v =
      (("vendor", str v.vendor) ∷ ("amount", real v.amount) ∷ [])
      ++ optional "frequency" (text_value v.frequency)
      ++ optional "monthly_equivalent" (float_value v.monthly_equivalent)
      ++ optional "category" (text_value v.category)
      ++ optional "old_monthly_equivalent" (float_value v.old_monthly_equivalent)

  abbrev frequency_or : Option String → String
  frequency_or none = "monthly"
  frequency_or (some s) = s

  -- `_monthly_equivalent`
  pub monthly_equivalent : NewVendor → Float
  monthly_equivalent v = elim v.monthly_equivalent [
    | some x ↦ x
    | none ↦
        if str_eq (frequency_or v.frequency) "annual"
        then p.round_to 2 (p.div v.amount (p.of_ℕ 12))
        else if str_eq (frequency_or v.frequency) "quarterly"
        then p.round_to 2 (p.div v.amount (p.of_ℕ 3))
        else v.amount
  ]

  -- `sum`, which adds from the left
  abbrev sum_from : Float → List Float → Float
  sum_from total [] = total
  sum_from total (x ∷ xs) = sum_from (p.add total x) xs

  -- the mean of a history, rounded to cents
  abbrev mean_of : List Float → Float
  mean_of [] = p.of_ℕ 0
  mean_of (x ∷ xs) = p.round_to 2 (p.div (sum_from (p.of_ℕ 0) (x ∷ xs)) (p.of_ℕ (length (x ∷ xs))))

  -- `a == b` of floats
  abbrev same : Float → Float → Bool
  same a b = p.le a b && p.le b a

  pub savings : String → NewVendor → World → Float
  savings old v w =
      let old_mo : Float = elim v.old_monthly_equivalent [
        | some x ↦ x
        | none ↦ mean_of (vendor_history old w.graph)
      ] in
      let new_mo = monthly_equivalent v in
      if same old_mo new_mo then p.of_ℕ 0 else p.round_to 2 (p.sub old_mo new_mo)

  abbrev pub category_or : Option String → String
  category_or none = "Software/SaaS"
  category_or (some s) = s

  abbrev switch_metadata : String → NewVendor → Dict (Value Float)
  switch_metadata old v = ("old_vendor", str old) ∷ ("new_vendor", object (vendor_dict v)) ∷ []

  -- `d[key]` of a dict that was built with the key
  abbrev built : String → Dict (Value Float) → Value Float
  built key d = elim (get key d) [ none ↦ null | some v ↦ v ]

  abbrev shown : String → Dict (Value Float) → String
  shown key d = p.str_value (built key d)

  -- `_step`
  abbrev step_of : String → Value Float → List String → Step
  step_of name status detail = record { step = name; status = status; detail = concat detail }

  pub cascade_steps :
      String
      → NewVendor
      → Decision
      → Dict (Value Float)
      → Dict (Value Float)
      → Dict (Value Float)
      → List Step
  cascade_steps old v policy made posted entry =
      let canceled = cancel_subscription old in
      step_of "policy_update" (str "ok") (
        "C1 would de-provision '"
        ∷ old
        ∷ "' access; new vendor '"
        ∷ v.vendor
        ∷ "' policy: "
        ∷ reason_text v.vendor v.amount "agent" policy
        ∷ [])
      ∷ step_of "stripe_cancel_old" (built "status" canceled)
          ("sub " ∷ shown "id" canceled ∷ " canceled for " ∷ old ∷ [])
      ∷ step_of "stripe_provision_new" (built "status" made) (
          "sub "
          ∷ shown "id" made
          ∷ " active for "
          ∷ v.vendor
          ∷ " at $"
          ∷ p.show_float v.amount
          ∷ [])
      ∷ step_of "intuit_entry" (built "status" posted)
          ("QB entry " ∷ shown "entry_id" posted ∷ " posted under " ∷ shown "account" posted ∷ [])
      ∷ step_of "graph_update" (str "ok")
          ("graph: '" ∷ v.vendor ∷ "' added; '" ∷ old ∷ "' marked inactive" ∷ [])
      ∷ step_of "audit" (str "ok") (
          "audit entry "
          ∷ slice (shown "entry_hash" entry) 0 12
          ∷ " appended at seq "
          ∷ shown "seq" entry
          ∷ [])
      ∷ []

  -- `stripe.create_subscription`, whose calls take four readings through MCP and one through the SDK
  abbrev pub provision : NewVendor → Act World (Dict (Value Float))
  provision v w = (create_subscription w.tick v.vendor v.amount, record w { tick = w.tick + 5 })

  abbrev pub switch_entry : String → NewVendor → Act World (Dict (Value Float))
  switch_entry old v = on_audit (λ now.
      append_action now "vendor_switch" v.vendor v.amount "switched" "procurement.vendor_switcher"
        (switch_metadata old v))

  -- the dict that `switch_vendor` returns
  abbrev pub switched :
      String
      → NewVendor
      → Decision
      → Dict (Value Float)
      → Dict (Value Float)
      → Dict (Value Float)
      → World
      → Switched
  switched old v policy made posted entry w = record {
    steps = cascade_steps old v policy made posted entry;
    old_vendor = old;
    new_vendor = v;
    monthly_savings = savings old v w;
    outcome = "switched";
    audit_entry_hash = built "entry_hash" entry;
  }

  -- the last two steps, and the answer
  unfoldable pub enter_switch :
      String → NewVendor → Decision → Dict (Value Float) → Dict (Value Float) → Act World Switched
  enter_switch old v policy made posted =
      on_graph (λ g. (ok tt, add_vendor v.vendor (some (category_or v.category)) g))
      >> switch_entry old v
      >>= λ entry. gets (switched old v policy made posted entry)

  abbrev pub today : String → String
  today iso = slice iso 0 10

  -- the policy's decision is only shown
  unfoldable pub switch_vendor : String → NewVendor → Act World Switched
  switch_vendor old v =
      outside (λ tick. check_policy tick v.vendor v.amount "agent" none) >>= λ policy.
      provision v >>= λ made.
      on_ledger (λ now. reconcile now made (some "saas") (some (today now.iso))) >>= λ posted.
      enter_switch old v policy made posted
