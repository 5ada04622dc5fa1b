-- ===== src/Resolve/Escalated.antt =====
-- What an escalation leaves alone (payments/payment_402_handler.py).
use nemoclaw_smb.Base.{
  ◌+◌, ◌≡◌, inl, inr, ◌∙◌, true, false, not, ◌&&◌, Option, none, some, List, [], ◌∷◌, ◌++◌, arith,
  Bool-cases,
}
use nemoclaw_smb.Base.Act.{Plain-cases, Result-cases, ok}
use nemoclaw_smb.Platform.{Platform}
use nemoclaw_smb.Anomaly.{Anomaly}
use nemoclaw_smb.Harness.{Outcome, Registry, Report, Step, blocked, executed, execute}
use nemoclaw_smb.Harness.Guarded.{execute-cases}
use nemoclaw_smb.Policy.{Decision, check_policy, reason_text}
use nemoclaw_smb.World.{World}
use nemoclaw_smb.Resolve.{
  Event, Resolution, conclude, effective_threshold, escalation, first_steps, handle_402,
  is_escalated, skill_args, try_pay,
}
use nemoclaw_smb.Resolve.Paid.{
  IsEscalation, anomaly_of, do_escalation_lem, escalation-ne-paid, settle_lem,
}

module _ ⦃p : Platform⦄ where
  executed_flag : (o : Outcome) → o ≡ executed → is_escalated o ≡ false
  executed_flag o h = ground arith

  blocked_flag : (o : Outcome) → o ≡ blocked → is_escalated o ≡ false
  blocked_flag o h = ground arith

  -- Where the harness escalates, it has changed neither the graph nor the ledger.
  escalated_kept :
      (registry : Registry) (event : Event) (threshold : p.Float) (w : World) {report : Report}
      {w1 : World}
      → execute registry "pay_invoice_skill"
          (skill_args event)
          "agent"
          (some event.amount)
          (some event.vendor)
          (some threshold)
          w
        ≡ (ok report, w1)
      → is_escalated report.outcome ≡ true
      → (w1.graph ≡ w.graph) × (w1.ledger ≡ w.ledger)
  escalated_kept registry event threshold w {report} e waits =
      elim (execute-cases registry "pay_invoice_skill" (skill_args event) "agent" event.amount
        (some event.vendor) (some threshold) w e) [
          | inl done ↦ ground (arith, executed_flag report.outcome done)
          | inr (inl (stopped, _)) ↦ ground (arith, blocked_flag report.outcome stopped)
          | inr (inr (_, _, g, l)) ↦ (g, l)
        ]

  try_pay_escalation :
      (registry : Registry) (event : Event) (anomaly : Anomaly) (steps : List Step)
      (threshold : p.Float) (w : World) {r : Resolution} {w' : World}
      → try_pay registry event anomaly steps threshold w ≡ (ok r, w')
      → r.outcome ≡ escalation
      → IsEscalation w r w'
  unfolding try_pay
  try_pay_escalation registry event anomaly steps threshold w {r} {w'} h out =
      elim (Result-cases (
        execute registry "pay_invoice_skill" (skill_args event) "agent" (some event.amount)
          (some event.vendor) (some threshold) w)) [
            | inr (x, w1, e) ↦ ground arith
            | inl (report, w1, e) ↦ elim (Bool-cases (is_escalated report.outcome)) [
              | inl waits ↦
                  let (gk, lk) = escalated_kept registry event threshold w e waits in
                  let (o, q, g, l) =
                    do_escalation_lem event anomaly
                      (steps ++ (record { step = "decision"; status = "approval_required" } ∷ []))
                      threshold report.approval_request_id none w1 {r = r} {w' = w'}
                      (ground arith) in
                  (o, q, g ∙ gk, l ∙ lk)
              | inr runs ↦
                  let (o, _, _) =
                    settle_lem event steps report w1 {r = r} {w' = w'} (ground arith) in
                  absurd (escalation-ne-paid r.outcome out o)
            ]
          ]

  conclude_escalation :
      (registry : Registry) (event : Event) (threshold : p.Float) (policy : Decision) (w : World)
      {r : Resolution} {w' : World}
      → conclude registry event threshold policy w ≡ (ok r, w')
      → r.outcome ≡ escalation
      → IsEscalation w r w'
  unfolding conclude
  conclude_escalation registry event threshold policy w {r} {w'} h out =
      let anomaly = anomaly_of event w in
      let steps = first_steps event w policy anomaly in
      elim (Bool-cases (policy.allowed && not anomaly.is_anomaly)) [
        | inr unclean ↦
            do_escalation_lem event anomaly steps threshold none
              (some (reason_text event.vendor event.amount "agent" policy)) w {r = r} {w' = w'}
              (ground arith)
        | inl clean ↦
            try_pay_escalation registry event anomaly steps threshold w {r = r} {w' = w'}
              (ground arith) out
      ]

  -- If `handle_402` returns that an invoice was escalated, then it returns no payment, and the graph
  -- and the ledger are as they were before the call.
  pub handle_402_escalation :
      (registry : Registry) (event : Event) (explicit : Option p.Float) (w : World) {r : Resolution}
      {w' : World}
      → handle_402 registry event explicit w ≡ (ok r, w')
      → r.outcome ≡ escalation
      → (r.payment ≡ none) × (w'.graph ≡ w.graph) × (w'.ledger ≡ w.ledger)
  unfolding handle_402
  handle_402_escalation registry event explicit w {r} {w'} h out =
      elim (Plain-cases (effective_threshold explicit)) [
        | inr (x, e) ↦ ground arith
        | inl (threshold, e) ↦
            elim (Plain-cases (check_policy w.tick event.vendor event.amount "agent" none)) [
              | inr (x, e2) ↦ ground arith
              | inl (policy, e2) ↦
                  let (_, q, g, l) =
                    conclude_escalation registry event threshold policy
                      (record w { tick = w.tick + 2 }) {r = r} {w' = w'} (ground arith) out in
                  (q, g, l)
            ]
      ]
