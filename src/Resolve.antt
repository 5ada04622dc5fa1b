-- ===== src/Resolve.antt =====
-- The resolution of an HTTP-402 invoice (payments/payment_402_handler.py), with the skill that pays
-- (agent/skills/pay_invoice_skill.py). The texts in a step's `detail` are left out.
pub mod Escalated
pub mod Paid
use nemoclaw_smb.Base.{
  ℕ, ◌+◌, String, Bool, true, false, not, ◌&&◌, Option, none, some, List, [], ◌∷◌, ◌++◌,
  if◌then◌else◌,
}
use nemoclaw_smb.Base.Dict.{Dict, get}
use nemoclaw_smb.Base.Act.{
  Act, Result, ok, err, value_error, type_error, attribute_error, pure, raise, ◌>>=◌, ◌>>◌, gets,
}
use nemoclaw_smb.Json.{Value, null, bool, int, real, str}
use nemoclaw_smb.Platform.{Platform, Moment}
use nemoclaw_smb.Anomaly.{Anomaly, score_invoice}
use nemoclaw_smb.Approval.{create_request, default_ttl}
use nemoclaw_smb.Audit.{append_action}
use nemoclaw_smb.Graph.{is_known_vendor, record_payment, vendor_history}
use nemoclaw_smb.Harness.{Outcome, escalated, Registry, Report, Skill, Step, execute}
use nemoclaw_smb.Ledger.{reconcile}
use nemoclaw_smb.Policy.{Decision, check_policy, reason_text}
use nemoclaw_smb.Stripe.{pay}
use nemoclaw_smb.World.{World, item, on_approvals, on_audit, on_graph, outside}

pub data Ending : Type 0 where
  paid escalation : Ending

module _ ⦃p : Platform⦄ where
  open p use {Float}

  pub record Event : Type 0 where
    pub vendor : String
    pub amount : Float
    pub date : String
    pub invoice_id : String

  pub record Resolution : Type 0 where
    pub invoice_id : String
    pub vendor : String
    pub amount : Float
    pub steps : List Step
    pub outcome : Ending
    pub payment : Option (Dict (Value Float))
    pub ledger_entry : Option (Dict (Value Float))
    pub approval_request_id : Option String
    pub anomaly : Option Anomaly
    pub audit_entry_hash : Option (Value Float)

  -- `float(value)`, and a value that is used as a text
  abbrev as_float : Value Float → Result Float
  as_float (real x) = ok x
  as_float (int n) = ok (p.of_ℕ n)
  as_float (bool b) = ok (if b then p.of_ℕ 1 else p.of_ℕ 0)
  as_float (str s) = elim (p.parse_float s) [ none ↦ err value_error | some x ↦ ok x ]
  as_float _ = err type_error

  abbrev as_text : Value Float → Result String
  as_text (str s) = ok s
  as_text _ = err type_error

  -- `_run` of pay_invoice_skill
  unfoldable pub pay_invoice_skill : Skill
  pay_invoice_skill args = do
    v ← item "vendor" args
    a ← item "amount" args
    i ← item "invoice_id" args
    vendor ← (λ w. (as_text v, w))
    amount ← (λ w. (as_float a, w))
    invoice_id ← (λ w. (as_text i, w))
    outside (λ tick. ok (pay tick vendor amount (some invoice_id)))

  -- the argument, then the environment, then 500
  unfoldable pub effective_threshold : Option Float → Result Float
  effective_threshold (some x) = ok x
  effective_threshold none = elim (p.getenv "SPEND_APPROVAL_THRESHOLD") [
    | none ↦ ok (p.of_ℕ 500)
    | some s ↦ elim (p.parse_float s) [ none ↦ err value_error | some x ↦ ok x ]
  ]

  abbrev said : String → String → Step
  said step status = record { step = step; status = status }

  abbrev opt_str : Option String → Value Float
  opt_str none = null
  opt_str (some s) = str s

  abbrev request_of : Option String → Act World String → Act World String
  request_of none create = create
  request_of (some rid) create = pure rid

  -- `_do_escalation` once there is a request; the step "decision" is there already where the harness
  -- has made the request.
  unfoldable pub record_escalation :
      Event → Anomaly → List Step → Option String → String → Act World Resolution
  record_escalation event anomaly steps request rid = do
    entry ← on_audit (λ now.
        append_action now "approval_request" event.vendor event.amount "escalated" "agent" (
          ("invoice_id", str event.invoice_id)
          ∷ ("request_id", str rid)
          ∷ ("anomaly_flagged", bool anomaly.is_anomaly)
          ∷ []))
    h ← item "entry_hash" entry
    pure (record {
      invoice_id = event.invoice_id;
      vendor = event.vendor;
      amount = event.amount;
      steps =
          steps
          ++ (elim request [ none ↦ said "decision" "escalated" ∷ [] | some _ ↦ [] ])
          ++ (said "escalation" "pending" ∷ []);
      outcome = escalation;
      payment = none;
      ledger_entry = none;
      approval_request_id = some rid;
      anomaly = if anomaly.is_anomaly then some anomaly else none;
      audit_entry_hash = some h;
    })

  abbrev pub request_context : Event → Anomaly → Float → Option String → Dict (Value Float)
  request_context event anomaly threshold policy_reason =
      ("invoice_id", str event.invoice_id)
      ∷ ("threshold", real threshold)
      ∷ ("policy_reason", opt_str policy_reason)
      ∷ ("anomaly_reason", if anomaly.is_anomaly then str anomaly.reason else null)
      ∷ []

  -- `_do_escalation`
  unfoldable pub do_escalation :
      Event → Anomaly → List Step → Float → Option String → Option String → Act World Resolution
  do_escalation event anomaly steps threshold request policy_reason = do
    rid ← request_of request (
        on_approvals (λ t.
          create_request t "purchase" event.vendor event.amount
            (request_context event anomaly threshold policy_reason) default_ttl))
    record_escalation event anomaly steps request rid

  abbrev pub on_ledger : {A : Type 0} → (Moment → Act (List (Dict (Value Float))) A) → Act World A
  on_ledger f w =
      let (r, entries) = f (p.clock w.tick) w.ledger in
      (r, record w { tick = w.tick + 1; ledger = entries })

  -- `_try_pay` once the harness has answered with anything but an escalation; `result` is `None` where
  -- it has blocked the skill, and `None.get` is an `AttributeError`.
  unfoldable pub settle : Event → List Step → Report → Act World Resolution
  settle event steps report = do
    payment ← elim report.result [ none ↦ raise attribute_error | some d ↦ pure d ]
    entry ← on_ledger (λ now. reconcile now payment none (some event.date))
    on_graph (record_payment event.vendor event.amount event.date none (some false))
    _ ← item "id" payment
    pure (record {
      invoice_id = event.invoice_id;
      vendor = event.vendor;
      amount = event.amount;
      steps = steps ++ (said "decision" "approved" ∷ said "payment" "succeeded" ∷ []);
      outcome = paid;
      payment = some payment;
      ledger_entry = some entry;
      approval_request_id = none;
      anomaly = none;
      audit_entry_hash = report.audit_entry_hash;
    })

  abbrev pub skill_args : Event → Dict (Value Float)
  skill_args event =
      ("vendor", str event.vendor)
      ∷ ("amount", real event.amount)
      ∷ ("invoice_id", str event.invoice_id)
      ∷ []

  abbrev pub is_escalated : Outcome → Bool
  is_escalated escalated = true
  is_escalated _ = false

  unfoldable pub try_pay : Registry → Event → Anomaly → List Step → Float → Act World Resolution
  try_pay registry event anomaly steps threshold = do
    report ←
        execute registry "pay_invoice_skill" (skill_args event) "agent" (some event.amount)
          (some event.vendor) (some threshold)
    if is_escalated report.outcome
        then do_escalation event anomaly (steps ++ (said "decision" "approval_required" ∷ []))
            threshold report.approval_request_id none
        else settle event steps report

  -- the three steps before the decision
  abbrev pub first_steps : Event → World → Decision → Anomaly → List Step
  first_steps event w policy anomaly =
      said "gbrain_lookup" (if is_known_vendor event.vendor w.graph then "known" else "new")
      ∷ said "policy_check" (if policy.allowed then "allowed" else "denied")
      ∷ said "anomaly_score" (if anomaly.is_anomaly then "flagged" else "clean")
      ∷ []

  -- `handle_402` from the decision on
  unfoldable pub conclude : Registry → Event → Float → Decision → Act World Resolution
  conclude registry event threshold policy w =
      let anomaly =
        score_invoice event.vendor event.amount (vendor_history event.vendor w.graph) (p.of_ℕ 2) in
      let steps = first_steps event w policy anomaly in
      if policy.allowed && not anomaly.is_anomaly
      then try_pay registry event anomaly steps threshold w
      else do_escalation event anomaly steps threshold none
          (some (reason_text event.vendor event.amount "agent" policy)) w

  unfoldable pub handle_402 : Registry → Event → Option Float → Act World Resolution
  handle_402 registry event explicit = do
    threshold ← (λ w. (effective_threshold explicit, w))
    policy ← outside (λ tick. check_policy tick event.vendor event.amount "agent" none)
    conclude registry event threshold policy
