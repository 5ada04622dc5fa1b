-- ===== src/Reconcile.antt =====
-- The owner's agent (acts/str_owner_agent.py): it reads the ledger of a property, compares the fee that
-- was charged with the contract, and pays the corrected fee under the approval gate.

pub mod Governed
pub mod Month
use Prim.Native.String.{slice}
use nemoclaw_smb.FeeAudit.{
  is_over, LedgerSummary, AnomalyResult, ingest_ledger, money_text, difference_text, percent_text,
  demo_anomaly_trace, anomaly_prompt, reasoning_trace, anomaly_result, detect_fee_anomaly,
}
use nemoclaw_smb.Base.{
  ℕ, ◌+◌, String, Bool, true, false, not, Option, none, some, List, [], ◌∷◌, concat, if◌then◌else◌,
}
use nemoclaw_smb.Base.Dict.{Dict, get}
use nemoclaw_smb.Base.Act.{
  Act, Result, Error, ok, err, approval_required, type_error, pure, raise, lift, ◌>>=◌, ◌>>◌,
}
use nemoclaw_smb.Base.Integers.{ℤ, pos, negsuc, difference, is_zero}
use nemoclaw_smb.Json.{Value, null, int, str}
use nemoclaw_smb.Platform.{Platform}
use nemoclaw_smb.Approval.{Record, decide, enforce_spend}
use nemoclaw_smb.Chain.{Entry, Verdict, verify_chain}
use nemoclaw_smb.Envelope.{Envelope, field_or, sign_stripe_envelope}
use nemoclaw_smb.Governance.{AuthorizeResult, Nhi, authorize}
use nemoclaw_smb.MockLedger.{fee_of, get_ledger_summary}
use nemoclaw_smb.Models.{Provenance, demo_mode, reasoned, route_for}
use nemoclaw_smb.Money.{audit, dollars}
use nemoclaw_smb.Stripe.{pay}
use nemoclaw_smb.World.{World, item, on_approvals, outside}

abbrev pub require_approval_threshold_cents : ℕ
require_approval_threshold_cents = 50000

module _ ⦃p : Platform⦄ where
  open p use {Float}

  pub record PaymentResult : Type 0 where
    pub payment_id : Value Float
    pub amount_cents : ℕ
    pub status : Value Float
    pub audit_hash : Value Float
    pub held_for_approval : Bool
    pub request_id : String

  pub record ReconciliationReport : Type 0 where
    pub property_id : String
    pub month : String
    pub summary : LedgerSummary
    pub anomaly : AnomalyResult
    pub payment : Option PaymentResult
    pub verdict : Verdict
    pub nhi_id : String

  -- `envelope.get("signature", "")[:32]`; a signature is a text
  unfoldable pub signature_key : Envelope → Result String
  signature_key envelope = elim (get "signature" envelope) [
    | none ↦ ok ""
    | some (str s) ↦ ok (slice s 0 32)
    | some _ ↦ err type_error
  ]

  abbrev pub refund_payload : ℕ → String → Dict (Value Float)
  refund_payload amount_cents vendor_id =
      ("vendor", str vendor_id) ∷ ("amount_cents", int amount_cents) ∷ []

  abbrev pub paid_result : ℕ → Dict (Value Float) → Value Float → PaymentResult
  paid_result amount_cents reply hash = record {
    payment_id = field_or "id" (str "") reply;
    amount_cents = amount_cents;
    status = field_or "status" (str "unknown") reply;
    audit_hash = hash;
    held_for_approval = false;
    request_id = "";
  }

  abbrev pub refund_metadata : Dict (Value Float) → Dict (Value Float)
  refund_metadata reply =
      ("envelope_action", str "str_owner_refund") ∷ ("stripe_id", field_or "id" null reply) ∷ []

  -- What `_audit_envelope_and_pay` does once the envelope is signed.
  unfoldable pub pay_refund : Nhi → ℕ → String → String → Act World PaymentResult
  pay_refund nhi amount_cents vendor_id key w =
      let reply = pay w.tick vendor_id (dollars amount_cents) (some key) in
      let w1 : World = record w { tick = w.tick + 2 } in
      (audit "payment" vendor_id (dollars amount_cents) "completed" nhi.agent_id
            (refund_metadata reply)
          >>= λ entry.
              item "entry_hash" entry >>= λ hash. pure (paid_result amount_cents reply hash))
        w1

  -- `_audit_envelope_and_pay`, for the identity that the module issued when it was loaded
  unfoldable pub audit_envelope_and_pay : Nhi → ℕ → String → Act World PaymentResult
  audit_envelope_and_pay nhi amount_cents vendor_id =
      sign_stripe_envelope "str_owner_refund" (refund_payload amount_cents vendor_id) nhi.agent_id
        nhi.scopes
      >>= λ envelope.
          lift (signature_key envelope) >>= λ key. pay_refund nhi amount_cents vendor_id key

  abbrev pub transfer_context : Nhi → ℕ → Dict (Value Float)
  transfer_context nhi amount_cents =
      ("amount_cents", int amount_cents) ∷ ("nhi_id", str nhi.id) ∷ []

  abbrev pub transfer_gate : Nhi → ℕ → String → Act World Record
  transfer_gate nhi amount_cents vendor_id = on_approvals (λ t.
      enforce_spend t "transfer" vendor_id (dollars amount_cents) nhi.agent_id
        (transfer_context nhi amount_cents) (some (dollars require_approval_threshold_cents)))

  unfoldable pub trigger_payment : Nhi → ℕ → String → Bool → Act World PaymentResult
  trigger_payment nhi amount_cents vendor_id true =
      transfer_gate nhi amount_cents vendor_id >> audit_envelope_and_pay nhi amount_cents vendor_id
  trigger_payment nhi amount_cents vendor_id false =
      audit_envelope_and_pay nhi amount_cents vendor_id

  abbrev pub held_result : ℕ → String → PaymentResult
  held_result amount_cents request_id = record {
    payment_id = str "";
    amount_cents = amount_cents;
    status = str "held_for_approval";
    audit_hash = str "";
    held_for_approval = true;
    request_id = request_id;
  }

  -- What follows an `ApprovalRequired`: in the demo the agent approves its own request and tries
  -- again; otherwise the payment is held.
  unfoldable pub after_refusal : Nhi → ℕ → String → String → Act World PaymentResult
  after_refusal nhi amount_cents vendor_id request_id =
      if demo_mode
      then on_approvals (λ t. decide t request_id true "demo-auto-approver")
        >> trigger_payment nhi amount_cents vendor_id true
      else pure (held_result amount_cents request_id)

  -- the `try` around the payment
  unfoldable pub recover : Nhi → ℕ → String → Result PaymentResult → Act World PaymentResult
  recover nhi amount_cents vendor_id (ok paid) = pure paid
  recover nhi amount_cents vendor_id (err (approval_required request_id)) =
      after_refusal nhi amount_cents vendor_id request_id
  recover nhi amount_cents vendor_id (err x) = raise x

  unfoldable pub pay_or_hold : Nhi → ℕ → String → Act World PaymentResult
  pay_or_hold nhi amount_cents vendor_id w =
      let (r, w') = trigger_payment nhi amount_cents vendor_id true w in
      recover nhi amount_cents vendor_id r w'

  -- The payment of an anomaly, which is over the expected fee.
  unfoldable pub corrected_payment : Nhi → AnomalyResult → String → Act World (Option PaymentResult)
  corrected_payment nhi anomaly property_id =
      if anomaly.is_anomaly
      then (pay_or_hold nhi anomaly.expected_fee_cents property_id >>= λ paid. pure (some paid))
      else pure none

  abbrev pub report_of :
      Nhi
      → String
      → String
      → LedgerSummary
      → AnomalyResult
      → Option PaymentResult
      → Verdict
      → ReconciliationReport
  report_of nhi property_id month summary anomaly payment verdict = record {
    property_id = property_id;
    month = month;
    summary = summary;
    anomaly = anomaly;
    payment = payment;
    verdict = verdict;
    nhi_id = nhi.id;
  }

  -- The answer of `authorize` is not looked at.
  unfoldable pub reconcile_month : Nhi → String → String → Bool → Act World ReconciliationReport
  reconcile_month nhi property_id month live = lift (ingest_ledger property_id month) >>= λ summary.
      detect_fee_anomaly summary summary.contract_pct live >>= λ anomaly.
      outside (λ tick. ok (authorize tick nhi "propose_payment" "stripe")) >>= λ _.
      corrected_payment nhi anomaly property_id >>= λ payment.
      (λ w. (verify_chain w.audit, w)) >>= λ verdict.
      pure (report_of nhi property_id month summary anomaly payment verdict)
