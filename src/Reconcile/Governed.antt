-- ===== src/Reconcile/Governed.antt =====
-- What the owner's agent pays, and under which gate (acts/str_owner_agent.py).
use mathlib.Core.Path.{subst}
use nemoclaw_smb.Base.{
  ℕ, ◌+◌, ◌≡◌, inl, inr, refl, sym, ap, String, true, false, some, List, [], ◌∷◌, arith,
  Option-cases,
}
use nemoclaw_smb.Base.Dict.{get}
use nemoclaw_smb.Base.Act.{ok, Plain-cases, bind_inv}
use nemoclaw_smb.Platform.{Platform}
use nemoclaw_smb.Approval.{Record, enforce_spend}
use nemoclaw_smb.Approval.Gate.{IsPermitted, enforce_spend_ok}
use nemoclaw_smb.Envelope.{float_of}
use nemoclaw_smb.Envelope.Written.{envelope_fact, sign_stripe_envelope-cases}
use nemoclaw_smb.Governance.{Nhi}
use nemoclaw_smb.Money.{dollars}
use nemoclaw_smb.Stripe.{pay}
use nemoclaw_smb.World.{World, readings}
use nemoclaw_smb.World.Logged.{Fact, IsLogged, IsLogged-none, IsLogged-then, on_audit-cases}
use nemoclaw_smb.Reconcile.{
  PaymentResult, pay_refund, refund_metadata, audit_envelope_and_pay, paid_result, refund_payload,
  require_approval_threshold_cents, signature_key, transfer_context, transfer_gate, trigger_payment,
}

module _ ⦃p : Platform⦄ where
  -- the entries of a payment: the envelope, then the payment
  abbrev pub refund_facts : ℕ → List Fact
  refund_facts cents = envelope_fact (p.of_ℕ cents) ∷ ("completed", dollars cents) ∷ []

  pub record IsPaid (cents : ℕ) (w w' : World) (paid : PaymentResult) : Type 0 where
    pub amount : paid.amount_cents ≡ cents
    pub not_held : paid.held_for_approval ≡ false
    pub logged : IsLogged (refund_facts cents) w w'

  pay_refund_ok :
      (nhi : Nhi) (cents : ℕ) (vendor key : String) (w : World) {paid : PaymentResult} {w' : World}
      → pay_refund nhi cents vendor key w ≡ (ok paid, w')
      → (paid.amount_cents ≡ cents)
        × (paid.held_for_approval ≡ false)
        × IsLogged (("completed", dollars cents) ∷ []) w w'
  unfolding pay_refund
  pay_refund_ok nhi cents vendor key w {paid} {w'} h =
      let w1 : World = record w { tick = w.tick + 2 } in
      let reply = pay w.tick vendor (dollars cents) (some key) in
      elim (on_audit-cases "payment" vendor (dollars cents) "completed" nhi.agent_id
        (refund_metadata reply) w1) [
          | inr (x, w2, failed, same) ↦ ground arith
          | inl (entry, w2, done, logged) ↦ elim (Option-cases (get "entry_hash" entry)) [
            | inl gone ↦ ground arith
            | inr (hash, here) ↦
                let same : (paid_result cents reply hash ≡ paid) × (w2 ≡ w') =
                  (ground arith, ground arith) in
                (
                  ap (λ (v : PaymentResult). v.amount_cents) (sym same.0),
                  ap (λ (v : PaymentResult). v.held_for_approval) (sym same.0),
                  subst (λ v. IsLogged (("completed", dollars cents) ∷ []) w v) same.1
                      (IsLogged-then w w1 w2 (IsLogged-none w w1 refl) logged),
                )
          ]
        ]

  audit_envelope_and_pay_ok :
      (nhi : Nhi) (cents : ℕ) (vendor : String) (w : World) {paid : PaymentResult} {w' : World}
      → audit_envelope_and_pay nhi cents vendor w ≡ (ok paid, w')
      → IsPaid cents w w' paid
  unfolding audit_envelope_and_pay get float_of
  audit_envelope_and_pay_ok nhi cents vendor w {paid} {w'} h =
      elim (sign_stripe_envelope-cases "str_owner_refund" (refund_payload cents vendor) nhi.agent_id
        nhi.scopes {cents = p.of_ℕ cents} w refl) [
          | inr (x, w1, failed, same) ↦ ground arith
          | inl (e, w1, signed, _, first) ↦ elim (Plain-cases (signature_key e)) [
            | inr (x, bad) ↦ ground arith
            | inl (key, found) ↦
                let (amount, not_held, next) =
                  pay_refund_ok nhi cents vendor key w1 {paid = paid} {w' = w'} (ground arith) in
                record {
                  amount = amount;
                  not_held = not_held;
                  logged = IsLogged-then w w1 w' first next;
                }
          ]
        ]

  pub trigger_payment_gated :
      (nhi : Nhi) (cents : ℕ) (vendor : String) (w : World) {paid : PaymentResult} {w' : World}
      → trigger_payment nhi cents vendor true w ≡ (ok paid, w')
      → ((r : Record) × IsPermitted
            (readings w)
            "transfer"
            vendor
            (dollars cents)
            (some (dollars require_approval_threshold_cents))
            w.approvals
            r)
        × IsPaid cents w w' paid
  unfolding trigger_payment
  trigger_payment_gated nhi cents vendor w {paid} {w'} h =
      let (r, w1, passed, rest) =
        bind_inv (transfer_gate nhi cents vendor) (λ _. audit_envelope_and_pay nhi cents vendor) w
          h in
      let gate =
        enforce_spend (readings w) "transfer" vendor (dollars cents) nhi.agent_id
          (transfer_context nhi cents) (some (dollars require_approval_threshold_cents))
          w.approvals in
      let let_through : gate ≡ (ok r, gate.1) = ap (λ m. (m.0, gate.1)) passed in
      let (_, _, _, permitted) =
        enforce_spend_ok (readings w) "transfer" vendor (dollars cents) nhi.agent_id
          (transfer_context nhi cents) (some (dollars require_approval_threshold_cents)) w.approvals
          let_through in
      let paid_there = audit_envelope_and_pay_ok nhi cents vendor w1 rest in
      (
        (r, permitted),
        record {
          amount = paid_there.amount;
          not_held = paid_there.not_held;
          logged =
              IsLogged-then w w1 w' (IsLogged-none w w1 (ap (λ m. m.1.audit) (sym passed)))
                paid_there.logged;
        },
      )
