-- ===== src/Reconcile/Month.antt =====
-- The month of a property: what is held, and what is paid (acts/str_owner_agent.py).
use mathlib.Core.Path.{subst}
use nemoclaw_smb.Base.{
  ℕ, ◌+◌, ◌≡◌, ◌≢◌, ◌⊎◌, inl, inr, refl, sym, ap, ◌∙◌, ◌↔◌, String, Bool, true, false, not, Option,
  none, some, [], arith, Bool-cases, member,
}
use nemoclaw_smb.Base.Dict.{get}
use nemoclaw_smb.Base.Act.{
  Result, ok, err, approval_required, Result-cases, Plain-cases, bind_inv, pure, pure_inv,
}
use nemoclaw_smb.Base.Integers.{difference, is_zero}
use nemoclaw_smb.Platform.{Platform}
use nemoclaw_smb.Approval.{Record, approved, pending, decide, request_id, requires_approval}
use nemoclaw_smb.Approval.Gate.{enforce_spend_refuses}
use nemoclaw_smb.Chain.{Verdict, verify_chain}
use nemoclaw_smb.Governance.{Nhi}
use nemoclaw_smb.MockLedger.{fee_of}
use nemoclaw_smb.Models.{Provenance, demo_mode, reasoned, route_for}
use nemoclaw_smb.Models.Reasoned.{reasoned_audit}
use nemoclaw_smb.Money.{dollars}
use nemoclaw_smb.World.{World, on_approvals, readings}
use nemoclaw_smb.World.Logged.{IsLogged, IsLogged-none}
use nemoclaw_smb.Reconcile.{
  PaymentResult, ReconciliationReport, after_refusal, corrected_payment, held_result, pay_or_hold,
  recover, reconcile_month, report_of, require_approval_threshold_cents, transfer_context,
  trigger_payment,
}
use nemoclaw_smb.FeeAudit.{
  AnomalyResult, LedgerSummary, anomaly_prompt, anomaly_result, demo_anomaly_trace,
  detect_fee_anomaly, ingest_ledger, reasoning_trace,
}
use nemoclaw_smb.Reconcile.Governed.{trigger_payment_gated}

module _ ⦃p : Platform⦄ where
  -- A transfer at a reading of the clock.
  abbrev pub transfer_id : ℕ → String → ℕ → String
  transfer_id cents vendor tick = request_id "transfer" vendor (dollars cents) (p.clock tick)

  -- Outside the demo mode, a transfer over 500 dollars of which no record is approved is held: the
  -- result names the request, which waits in the store, and nothing is added to the audit log.
  pub pay_or_hold_holds :
      (nhi : Nhi) (cents : ℕ) (vendor : String) (w : World)
      → demo_mode ≡ false
      → p.lt (dollars cents) (p.of_ℕ 0) ≡ false
      → p.lt (dollars require_approval_threshold_cents) (dollars cents) ≡ true
      → ((r : Record)
          → get (transfer_id cents vendor (w.tick + 0)) w.approvals ≡ some r
          → r.status ≢ approved)
      → let rid = transfer_id cents vendor (w.tick + 3) in
        (w' : World) × (pay_or_hold nhi cents vendor w ≡ (ok (held_result cents rid), w'))
        × ((r : Record) × (get rid w'.approvals ≡ some r) × (r.status ≡ pending))
        × IsLogged [] w w'
  unfolding pay_or_hold recover after_refusal trigger_payment requires_approval member
  pay_or_hold_holds nhi cents vendor w no_demo nonneg over none_granted =
      let (s', refused, waits) =
        enforce_spend_refuses (readings w) "transfer" vendor (dollars cents) nhi.agent_id
          (transfer_context nhi cents) (some (dollars require_approval_threshold_cents)) w.approvals
          refl nonneg (ap ok over) none_granted in
      let w' : World = record w { tick = w.tick + 6; approvals = s' } in
      (w', ground arith, waits, IsLogged-none w w' refl)

  trigger_payment_amount :
      (nhi : Nhi) (cents : ℕ) (vendor : String) (w : World) {paid : PaymentResult} {w' : World}
      → trigger_payment nhi cents vendor true w ≡ (ok paid, w')
      → paid.amount_cents ≡ cents
  trigger_payment_amount nhi cents vendor w h =
      let (_, paid_there) = trigger_payment_gated nhi cents vendor w h in paid_there.amount

  after_refusal_amount :
      (nhi : Nhi) (cents : ℕ) (vendor rid : String) (w : World) {paid : PaymentResult} {w' : World}
      → after_refusal nhi cents vendor rid w ≡ (ok paid, w')
      → paid.amount_cents ≡ cents
  unfolding after_refusal
  after_refusal_amount nhi cents vendor rid w {paid} {w'} h = elim (Bool-cases demo_mode) [
    | inr no_demo ↦
        let same : paid ≡ held_result cents rid = ground arith in
        ap (λ (v : PaymentResult). v.amount_cents) same
    | inl demo ↦
        let (_, w1, _, again) =
          bind_inv (on_approvals (λ t. decide t rid true "demo-auto-approver"))
            (λ _. trigger_payment nhi cents vendor true) w {b = paid} {s' = w'} (ground arith) in
        trigger_payment_amount nhi cents vendor w1 again
  ]

  recover_amount :
      (nhi : Nhi) (cents : ℕ) (vendor : String) (r : Result PaymentResult) (w : World)
      {paid : PaymentResult} {w' : World}
      → ((made : PaymentResult) → r ≡ ok made → made.amount_cents ≡ cents)
      → recover nhi cents vendor r w ≡ (ok paid, w')
      → paid.amount_cents ≡ cents
  unfolding recover
  recover_amount nhi cents vendor (ok made) w {paid} {w'} amount h =
      ap (λ m. elim m.0 [ ok v ↦ v.amount_cents | err _ ↦ 0 ]) (sym h) ∙ amount made refl
  recover_amount nhi cents vendor (err (approval_required rid)) w amount h =
      after_refusal_amount nhi cents vendor rid w h
  recover_amount nhi cents vendor (err x) w amount h = cc h

  pay_or_hold_amount :
      (nhi : Nhi) (cents : ℕ) (vendor : String) (w : World) {paid : PaymentResult} {w' : World}
      → pay_or_hold nhi cents vendor w ≡ (ok paid, w')
      → paid.amount_cents ≡ cents
  unfolding pay_or_hold
  pay_or_hold_amount nhi cents vendor w h =
      let tried = trigger_payment nhi cents vendor true w in
      recover_amount nhi cents vendor tried.0 tried.1
        (λ made e. trigger_payment_amount nhi cents vendor w (ap (λ r. (r, tried.1)) e)) h

  is_zero-difference : (a b : ℕ) → (is_zero (difference a b) ≡ true) ↔ (a ≡ b)
  is_zero-difference a b = ground arith

  reasoning_trace_audit :
      (summary : LedgerSummary) (expected charged : ℕ) (live : Bool) (w : World)
      {traced : String × Provenance p.Float} {w' : World}
      → reasoning_trace summary expected charged live w ≡ (ok traced, w')
      → w'.audit ≡ w.audit
  unfolding reasoning_trace
  reasoning_trace_audit summary expected charged live w {traced} {w'} h =
      elim (Plain-cases (route_for "anomaly_detection")) [
        | inr (x, unknown) ↦ ground arith
        | inl (model, routed) ↦
            let prompt = anomaly_prompt summary expected charged in
            let cached = demo_anomaly_trace summary expected charged in
            let step = reasoned "anomaly reasoning" "owner" model live prompt cached w in
            let same : step.1 ≡ w' = ground arith in
            ap (λ (v : World). v.audit) (sym same)
            ∙ reasoned_audit "anomaly reasoning" "owner" model live prompt cached w
      ]

  -- Detecting writes no audit entry, and what it returns follows from the two fees.
  detect_fee_anomaly_lem :
      (summary : LedgerSummary) (contract : p.Float) (live : Bool) (w : World) {a : AnomalyResult}
      {w' : World}
      → detect_fee_anomaly summary contract live w ≡ (ok a, w')
      → ((traced : String × Provenance p.Float) × (a ≡ anomaly_result summary contract traced))
        × (w'.audit ≡ w.audit)
  unfolding detect_fee_anomaly
  detect_fee_anomaly_lem summary contract live w {a} {w'} h =
      let expected = fee_of summary.revenue_cents contract in
      let charged = fee_of summary.revenue_cents summary.charged_pct in
      let (traced, w1, ran, rest) =
        bind_inv (reasoning_trace summary expected charged live)
          (λ traced. pure (anomaly_result summary contract traced)) w h in
      let (made, same) = pure_inv rest in
      (
        (traced, sym made),
        ap (λ (v : World). v.audit) (sym same)
            ∙ reasoning_trace_audit summary expected charged live w ran,
      )

  -- What the report says of the fees, of the payment and of the audit log.
  pub record IsReported (property month : String) (w w' : World) (report : ReconciliationReport)
      : Type 0 where
    pub ingested : ingest_ledger property month ≡ ok report.summary
    pub expected :
        report.anomaly.expected_fee_cents
        ≡ fee_of report.summary.revenue_cents report.summary.contract_pct
    pub charged :
        report.anomaly.charged_fee_cents
        ≡ fee_of report.summary.revenue_cents report.summary.charged_pct
    pub pays :
        ((report.anomaly.charged_fee_cents ≡ report.anomaly.expected_fee_cents)
          × (report.payment ≡ none)
          × IsLogged [] w w')
        ⊎ ((report.anomaly.charged_fee_cents ≢ report.anomaly.expected_fee_cents)
            × ((paid : PaymentResult) × (report.payment ≡ some paid)
                × (paid.amount_cents ≡ report.anomaly.expected_fee_cents)))

  corrected_payment_lem :
      (nhi : Nhi) (a : AnomalyResult) (property : String) (w : World)
      {payment : Option PaymentResult} {w' : World}
      → corrected_payment nhi a property w ≡ (ok payment, w')
      → ((a.is_anomaly ≡ false) × (payment ≡ none) × (w' ≡ w))
        ⊎ ((a.is_anomaly ≡ true)
            × ((paid : PaymentResult) × (payment ≡ some paid)
                × (paid.amount_cents ≡ a.expected_fee_cents)))
  unfolding corrected_payment
  corrected_payment_lem nhi a property w {payment} {w'} h = elim (Bool-cases a.is_anomaly) [
    | inr fine ↦ inl (fine, ground arith, ground arith)
    | inl flagged ↦
        let (paid, w1, made, rest) =
          bind_inv (pay_or_hold nhi a.expected_fee_cents property) (λ paid. pure (some paid)) w
            {b = payment} {s' = w'} (ground arith) in
        inr (
          flagged,
          (paid, ground arith, pay_or_hold_amount nhi a.expected_fee_cents property w made),
        )
  ]

  report_of-IsReported :
      (nhi : Nhi) (property month : String) (live : Bool) (w w1 w2 w3 : World)
      (summary : LedgerSummary) (a : AnomalyResult) (payment : Option PaymentResult)
      (verdict : Verdict)
      → ingest_ledger property month ≡ ok summary
      → detect_fee_anomaly summary summary.contract_pct live w ≡ (ok a, w1)
      → w2.audit ≡ w1.audit
      → corrected_payment nhi a property w2 ≡ (ok payment, w3)
      → IsReported property month w w3 (report_of nhi property month summary a payment verdict)
  report_of-IsReported nhi property month live w w1 w2 w3 summary a payment verdict ingested
        detected same corrected =
      let ((traced, made), quiet) =
        detect_fee_anomaly_lem summary summary.contract_pct live w detected in
      let expected = fee_of summary.revenue_cents summary.contract_pct in
      let charged = fee_of summary.revenue_cents summary.charged_pct in
      let expects = ap (λ (v : AnomalyResult). v.expected_fee_cents) made in
      let charges = ap (λ (v : AnomalyResult). v.charged_fee_cents) made in
      let flags : a.is_anomaly ≡ not (is_zero (difference charged expected)) =
        ap (λ (v : AnomalyResult). v.is_anomaly) made in
      record {
        ingested = ingested;
        expected = expects;
        charged = charges;
        pays = elim (corrected_payment_lem nhi a property w2 corrected) [
          | inl (fine, nothing, stays) ↦ inl (
            charges ∙ ground (arith, is_zero-difference charged expected) ∙ sym expects,
            nothing,
            IsLogged-none w w3 (ap (λ (v : World). v.audit) stays ∙ same ∙ quiet),
          )
          | inr (flagged, paid) ↦ inr (
            λ equal.
                ground (arith, is_zero-difference charged expected, sym charges ∙ equal ∙ expects),
            paid,
          )
        ];
      }

  -- If the month of a property is reconciled, then the report's fees are those of the ledger: the
  -- contract's and the charged share of the revenue, in whole cents. Where the two are equal, nothing
  -- is paid and the audit log has not grown; where they differ, a payment is reported, made or held,
  -- and it is over the contract's fee.
  pub reconcile_month_lem :
      (nhi : Nhi) (property month : String) (live : Bool) (w : World)
      {report : ReconciliationReport} {w' : World}
      → reconcile_month nhi property month live w ≡ (ok report, w')
      → IsReported property month w w' report
  unfolding reconcile_month
  reconcile_month_lem nhi property month live w {report} {w'} h =
      elim (Plain-cases (ingest_ledger property month)) [
        | inr (x, unknown) ↦ ground arith
        | inl (summary, ingested) ↦
            elim (Result-cases (detect_fee_anomaly summary summary.contract_pct live w)) [
              | inr (x, w1, failed) ↦ ground arith
              | inl (a, w1, detected) ↦
                  let w2 : World = record w1 { tick = w1.tick + 2 } in
                  elim (Result-cases (corrected_payment nhi a property w2)) [
                    | inr (x, w3, failed) ↦ ground arith
                    | inl (payment, w3, paid) ↦ elim (Plain-cases (verify_chain w3.audit)) [
                      | inr (x, failed) ↦ ground arith
                      | inl (verdict, checked) ↦
                          let report' = report_of nhi property month summary a payment verdict in
                          let same : (report' ≡ report) × (w3 ≡ w') =
                            (ground arith, ground arith) in
                          subst (λ v. IsReported property month w v report) same.1
                            (subst (IsReported property month w w3) same.0 (
                              report_of-IsReported nhi property month live w w1 w2 w3 summary a
                                payment verdict ingested detected refl paid))
                    ]
                  ]
            ]
      ]
