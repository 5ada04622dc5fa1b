-- ===== src/Resolve/Paid.antt =====
-- When an invoice is paid (payments/payment_402_handler.py).
use nemoclaw_smb.Base.{
  ◌+◌, ◌≡◌, ◌≢◌, inl, inr, String, true, false, not, ◌&&◌, Option, none, some, List, [], ◌∷◌, ◌++◌,
  arith, Bool-cases, Option-cases,
}
use nemoclaw_smb.Base.Dict.{contains, get}
use nemoclaw_smb.Base.Act.{Plain-cases, Result-cases, ok}
use nemoclaw_smb.Json.{str, bool}
use nemoclaw_smb.Platform.{Platform}
use nemoclaw_smb.Anomaly.{Anomaly, score_invoice}
use nemoclaw_smb.Approval.{Record, create_request, default_ttl}
use nemoclaw_smb.Approval.Gate.{IsPermitted}
use nemoclaw_smb.Graph.{vendor_history, record_payment}
use nemoclaw_smb.Ledger.{reconcile}
use nemoclaw_smb.Audit.{append_action}
use nemoclaw_smb.Harness.{Registry, Report, Step, executed, execute, or_text}
use nemoclaw_smb.Scan.{scan_unsafe}
use nemoclaw_smb.Harness.Guarded.{execute_executed, execute-cases}
use nemoclaw_smb.Policy.{Decision, check_policy, reason_text}
use nemoclaw_smb.World.{World, readings}
use nemoclaw_smb.Resolve.{
  Ending, Event, Resolution, conclude, record_escalation, request_context, do_escalation,
  effective_threshold, escalation, first_steps, handle_402, is_escalated, paid, settle, skill_args,
  try_pay,
}

module _ ⦃p : Platform⦄ where
  abbrev pub IsEscalation : World → Resolution → World → Type 0
  IsEscalation w r w' =
      (r.outcome ≡ escalation) × (r.payment ≡ none) × (w'.graph ≡ w.graph) × (w'.ledger ≡ w.ledger)

  record_escalation_lem :
      (event : Event) (anomaly : Anomaly) (steps : List Step) (request : Option String)
      (rid : String) (w : World) {r : Resolution} {w' : World}
      → record_escalation event anomaly steps request rid w ≡ (ok r, w')
      → IsEscalation w r w'
  unfolding record_escalation
  record_escalation_lem event anomaly steps request rid w h =
      elim (Result-cases (
        append_action (p.clock w.tick) "approval_request" event.vendor event.amount "escalated"
          "agent"
          (("invoice_id", str event.invoice_id)
            ∷ ("request_id", str rid)
            ∷ ("anomaly_flagged", bool anomaly.is_anomaly)
            ∷ [])
          w.audit)) [
            | inr (x, s, e) ↦ ground arith
            | inl (entry, s, e) ↦ elim (Option-cases (get "entry_hash" entry)) [
              | inl e2 ↦ ground arith
              | inr (v, e2) ↦ ground arith
            ]
          ]

  pub do_escalation_lem :
      (event : Event) (anomaly : Anomaly) (steps : List Step) (threshold : p.Float)
      (request policy_reason : Option String) (w : World) {r : Resolution} {w' : World}
      → do_escalation event anomaly steps threshold request policy_reason w ≡ (ok r, w')
      → IsEscalation w r w'
  unfolding do_escalation
  do_escalation_lem event anomaly steps threshold (some rid) policy_reason w h =
      record_escalation_lem event anomaly steps (some rid) rid w h
  do_escalation_lem event anomaly steps threshold none policy_reason w {r} {w'} h =
      elim (Result-cases (
        create_request (readings w) "purchase" event.vendor event.amount
          (request_context event anomaly threshold policy_reason) default_ttl w.approvals)) [
            | inr (x, s, e) ↦ ground arith
            | inl (rid, s, e) ↦
                record_escalation_lem event anomaly steps none rid
                  (record w { tick = w.tick + 6; approvals = s }) {r = r} {w' = w'} (ground arith)
          ]

  pub settle_lem :
      (event : Event) (steps : List Step) (report : Report) (w : World) {r : Resolution}
      {w' : World}
      → settle event steps report w ≡ (ok r, w')
      → (r.outcome ≡ paid) × (r.payment ≡ report.result) × (report.result ≢ none)
  unfolding settle reconcile
  settle_lem event steps report w h = elim (Option-cases report.result) [
    | inl e ↦ ground arith
    | inr (d, e) ↦
        elim (Result-cases
          (record_payment event.vendor event.amount event.date none (some false) w.graph)) [
            | inr (x, g, e2) ↦ ground arith
            | inl (u, g, e2) ↦ elim (Option-cases (get "id" d)) [
              | inl e3 ↦ ground arith
              | inr (v, e3) ↦ (ground arith, ground arith, λ no. ground arith)
            ]
          ]
  ]

  pub escalation-ne-paid : (e : Ending) → e ≡ escalation → e ≡ paid → ⊥
  escalation-ne-paid e h k = ground arith

  -- A payment goes through the harness, which has executed the skill.
  try_pay_paid :
      (registry : Registry) (event : Event) (anomaly : Anomaly) (steps : List Step)
      (threshold : p.Float) (w : World) {r : Resolution} {w' : World}
      → try_pay registry event anomaly steps threshold w ≡ (ok r, w')
      → r.outcome ≡ paid
      → (report : Report) × (w1 : World) × (execute registry "pay_invoice_skill"
            (skill_args event)
            "agent"
            (some event.amount)
            (some event.vendor)
            (some threshold)
            w
          ≡ (ok report, w1))
        × (report.outcome ≡ executed)
        × (r.payment ≡ report.result)
  unfolding try_pay
  try_pay_paid registry event anomaly steps threshold w {r} {w'} h out =
      elim (Result-cases (
        execute registry "pay_invoice_skill" (skill_args event) "agent" (some event.amount)
          (some event.vendor) (some threshold) w)) [
            | inr (x, w1, e) ↦ ground arith
            | inl (report, w1, e) ↦ elim (Bool-cases (is_escalated report.outcome)) [
              | inl waits ↦ ground (
                arith,
                do_escalation_lem event anomaly
                    (steps ++ (record { step = "decision"; status = "approval_required" } ∷ []))
                    threshold report.approval_request_id none w1 {r = r} {w' = w'} (ground arith),
              )
              | inr runs ↦
                  let (_, same, has) =
                    settle_lem event steps report w1 {r = r} {w' = w'} (ground arith) in
                  elim (execute-cases registry "pay_invoice_skill" (skill_args event) "agent"
                    event.amount (some event.vendor) (some threshold) w e) [
                      | inl done ↦ (report, w1, e, done, same)
                      | inr (inl (_, lacks)) ↦ absurd (has lacks)
                      | inr (inr (_, lacks, _, _)) ↦ absurd (has lacks)
                    ]
            ]
          ]

  -- The score that `handle_402` decides by.
  abbrev pub anomaly_of : Event → World → Anomaly
  anomaly_of event w =
      score_invoice event.vendor event.amount (vendor_history event.vendor w.graph) (p.of_ℕ 2)

  conclude_paid :
      (registry : Registry) (event : Event) (threshold : p.Float) (policy : Decision) (w : World)
      {r : Resolution} {w' : World}
      → conclude registry event threshold policy w ≡ (ok r, w')
      → r.outcome ≡ paid
      → (policy.allowed ≡ true)
        × ((anomaly_of event w).is_anomaly ≡ false)
        × ((rec : Record) × (contains "pay_invoice_skill" registry ≡ true)
            × (scan_unsafe (skill_args event) ≡ none)
            × IsPermitted
                (λ i. p.clock (w.tick + 2 + i))
                "purchase"
                (or_text (some event.vendor) "unknown")
                event.amount
                (some threshold)
                w.approvals
                rec)
  unfolding conclude
  conclude_paid registry event threshold policy w {r} {w'} h out =
      let anomaly = anomaly_of event w in
      let steps = first_steps event w policy anomaly in
      elim (Bool-cases (policy.allowed && not anomaly.is_anomaly)) [
        | inr unclean ↦ absurd (
            escalation-ne-paid r.outcome
              ((do_escalation_lem event anomaly steps threshold none
                (some (reason_text event.vendor event.amount "agent" policy)) w {r = r} {w' = w'}
                (ground arith)).0)
              out)
        | inl clean ↦
            let (report, w1, ran, done, same) =
              try_pay_paid registry event anomaly steps threshold w {r = r} {w' = w'} (ground arith)
                out in
            let (known, safe, _, (rec, permitted)) = execute_executed _ _ _ _ _ _ _ w ran done in
            (ground arith, ground arith, (rec, known, safe, permitted))
      ]

  -- If `handle_402` returns that an invoice was paid, then the threshold could be read, the policy
  -- check returned a decision that allows the spend, the amount was no anomaly against the
  -- vendor's history at the z-score threshold 2, the skill that pays is registered, its arguments
  -- have no unsafe pattern, and the spend was not over the threshold or an approved record of it
  -- was there before the call.
  pub handle_402_paid :
      (registry : Registry) (event : Event) (explicit : Option p.Float) (w : World) {r : Resolution}
      {w' : World}
      → handle_402 registry event explicit w ≡ (ok r, w')
      → r.outcome ≡ paid
      → (threshold : p.Float) × (policy : Decision) × (rec : Record) × (effective_threshold explicit
          ≡ ok threshold)
        × (check_policy w.tick event.vendor event.amount "agent" none ≡ ok policy)
        × (policy.allowed ≡ true)
        × ((anomaly_of event w).is_anomaly ≡ false)
        × (contains "pay_invoice_skill" registry ≡ true)
        × (scan_unsafe (skill_args event) ≡ none)
        × IsPermitted
            (λ i. p.clock (w.tick + 2 + 2 + i))
            "purchase"
            (or_text (some event.vendor) "unknown")
            event.amount
            (some threshold)
            w.approvals
            rec
  unfolding handle_402
  handle_402_paid registry event explicit w {r} {w'} h out =
      elim (Plain-cases (effective_threshold explicit)) [
        | inr (x, e) ↦ ground arith
        | inl (threshold, e) ↦
            elim (Plain-cases (check_policy w.tick event.vendor event.amount "agent" none)) [
              | inr (x, e2) ↦ ground arith
              | inl (policy, e2) ↦
                  let (allowed, clean, (rec, known, safe, permitted)) =
                    conclude_paid registry event threshold policy (record w { tick = w.tick + 2 })
                      {r = r} {w' = w'} (ground arith) out in
                  (threshold, policy, rec, e, e2, allowed, clean, known, safe, permitted)
            ]
      ]
