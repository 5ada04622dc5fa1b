-- ===== src/Harness/Guarded.antt =====
-- What the harness lets run (agent/nemoclaw_harness.py).
use nemoclaw_smb.Base.{
  ℕ, ◌+◌, ◌≡◌, ◌⊎◌, inl, inr, String, true, Option, none, some, List, [], ◌∷◌, arith, Option-cases,
}
use nemoclaw_smb.Base.Dict.{Dict, contains, get}
use nemoclaw_smb.Base.Act.{Result-cases, ok, approval_required}
use nemoclaw_smb.Json.{Value, str}
use nemoclaw_smb.Platform.{Platform}
use nemoclaw_smb.Audit.{append_action}
use nemoclaw_smb.Approval.{Record, enforce_spend}
use nemoclaw_smb.Approval.Gate.{IsPermitted, enforce_spend_ok}
use nemoclaw_smb.World.{World, readings}
use nemoclaw_smb.Harness.{
  Outcome, Registry, Report, Step, audited, block, blocked, escalate, escalated, executed, execute,
  guardrail_check, or_text, permission_gate, run_and_audit, run_skill, amount_or,
}
use nemoclaw_smb.Scan.{scan_unsafe}

module _ ⦃p : Platform⦄ where
  -- An audit entry leaves the objects in memory alone.
  audited_lem :
      (action : String) (vendor : Option String) (amount : p.Float) (decision actor : String)
      (metadata : Dict (Value p.Float)) (w : World)
      → let w' = (audited action vendor amount decision actor metadata w).1 in
        (w'.graph ≡ w.graph) × (w'.ledger ≡ w.ledger)
  unfolding audited
  audited_lem action vendor amount decision actor metadata w =
      elim (Result-cases (
        append_action (p.clock w.tick) action (or_text vendor "unknown") amount decision actor
          metadata w.audit)) [
            | inr (x, s, e) ↦ (ground arith, ground arith)
            | inl (entry, s, e) ↦ elim (Option-cases (get "entry_hash" entry)) [
              | inl e2 ↦ (ground arith, ground arith)
              | inr (v, e2) ↦ (ground arith, ground arith)
            ]
          ]

  -- Every report that `block`, `escalate` and `run_and_audit` return says so.
  block-blocked :
      (name actor : String) (amount : Option p.Float) (vendor : Option String) (reason : String)
      (w : World) {r : Report} {w' : World}
      → block name actor amount vendor reason w ≡ (ok r, w')
      → (r.outcome ≡ blocked) × (r.result ≡ none)
  unfolding block
  block-blocked name actor amount vendor reason w h =
      elim (Result-cases (
        audited "access_change" vendor (amount_or amount) "blocked" actor
          (("skill", str name) ∷ ("reason", str reason) ∷ []) w)) [
            | inl (a, w1, e) ↦ (ground arith, ground arith)
            | inr (x, w1, e) ↦ (ground arith, ground arith)
          ]

  escalate-escalated :
      (name actor : String) (amount : p.Float) (vendor : Option String) (rid : String)
      (steps : List Step) (w : World) {r : Report} {w' : World}
      → escalate name actor amount vendor rid steps w ≡ (ok r, w')
      → (r.outcome ≡ escalated) × (r.result ≡ none) × (w'.graph ≡ w.graph) × (w'.ledger ≡ w.ledger)
  unfolding escalate
  escalate-escalated name actor amount vendor rid steps w h =
      let metadata : Dict (Value p.Float) = ("skill", str name) ∷ ("request_id", str rid) ∷ [] in
      let kept = audited_lem "approval_request" vendor amount "escalated" actor metadata w in
      elim (Result-cases (audited "approval_request" vendor amount "escalated" actor metadata w)) [
        | inl (a, w1, e) ↦ (ground arith, ground arith, ground arith, ground arith)
        | inr (x, w1, e) ↦ ground arith
      ]

  blocked-ne-executed : (o : Outcome) → o ≡ blocked → o ≡ executed → ⊥
  blocked-ne-executed o h k = ground arith

  guardrail_check_clean :
      (registry : Registry) (tick : ℕ) (name : String) (args : Dict (Value p.Float))
      → guardrail_check registry tick name args ≡ none
      → (contains name registry ≡ true) × (scan_unsafe args ≡ none)
  unfolding guardrail_check
  guardrail_check_clean registry tick name args h = (ground arith, ground arith)

  -- The gate passes only where `enforce_spend` returned.
  permission_gate_passes :
      (name actor : String) (amount : p.Float) (vendor : Option String) (threshold : Option p.Float)
      (steps : List Step) (w : World) {steps' : List Step} {w' : World}
      → permission_gate name actor amount vendor threshold steps w ≡ (ok (none, steps'), w')
      → (r : Record) × (s : Dict Record) × (enforce_spend
            (readings w)
            "purchase"
            (or_text vendor "unknown")
            amount
            actor
            []
            threshold
            w.approvals
          ≡ (ok r, s))
  unfolding permission_gate
  permission_gate_passes name actor amount vendor threshold steps w h =
      elim (Result-cases (
        enforce_spend (readings w) "purchase" (or_text vendor "unknown") amount actor [] threshold
          w.approvals)) [
            | inl (r, s, e) ↦ (r, s, e)
            | inr (approval_required rid, s, e) ↦
                elim (Result-cases (
                  escalate name actor amount vendor rid steps
                    (record w { tick = w.tick + 6; approvals = s }))) [
                      | inl (r, w1, e1) ↦ ground arith
                      | inr (x, w1, e1) ↦ ground arith
                    ]
            | inr (_, s, e) ↦ ground arith
          ]

  -- The gate halts only with an escalation.
  permission_gate_halts :
      (name actor : String) (amount : p.Float) (vendor : Option String) (threshold : Option p.Float)
      (steps : List Step) (w : World) {r : Report} {steps' : List Step} {w' : World}
      → permission_gate name actor amount vendor threshold steps w ≡ (ok (some r, steps'), w')
      → (r.outcome ≡ escalated) × (r.result ≡ none) × (w'.graph ≡ w.graph) × (w'.ledger ≡ w.ledger)
  unfolding permission_gate
  permission_gate_halts name actor amount vendor threshold steps w h =
      elim (Result-cases (
        enforce_spend (readings w) "purchase" (or_text vendor "unknown") amount actor [] threshold
          w.approvals)) [
            | inl (r, s, e) ↦ ground arith
            | inr (approval_required rid, s, e) ↦
                let w1 = record w { tick = w.tick + 6; approvals = s } in
                elim (Result-cases (escalate name actor amount vendor rid steps w1)) [
                  | inl (r, w2, e1) ↦
                      ground (arith, escalate-escalated name actor amount vendor rid steps w1 e1)
                  | inr (x, w2, e1) ↦ ground arith
                ]
            | inr (_, s, e) ↦ ground arith
          ]

  -- If a call of the harness with an amount reports that the skill was executed, then the skill is
  -- registered, no text in its arguments has an unsafe pattern and the guardrails let it run, and the
  -- spend is not over the threshold or an approved record of it was there before the call.
  pub execute_executed :
      (registry : Registry) (name : String) (args : Dict (Value p.Float)) (actor : String)
      (amount : p.Float) (vendor : Option String) (threshold : Option p.Float) (w : World)
      {r : Report} {w' : World}
      → execute registry name args actor (some amount) vendor threshold w ≡ (ok r, w')
      → r.outcome ≡ executed
      → (contains name registry ≡ true)
        × (scan_unsafe args ≡ none)
        × (guardrail_check registry w.tick name args ≡ none)
        × ((rec : Record) × IsPermitted
              (λ i. p.clock (w.tick + 2 + i))
              "purchase"
              (or_text vendor "unknown")
              amount
              threshold
              w.approvals
              rec)
  unfolding execute
  execute_executed registry name args actor amount vendor threshold w {r} {w'} h out =
      let steps : List Step = record { step = "guardrail"; status = "ok" } ∷ [] in
      let w1 : World = record w { tick = w.tick + 2 } in
      elim (Option-cases (guardrail_check registry w.tick name args)) [
        | inr (reason, bad) ↦ absurd (
            blocked-ne-executed _
              (block-blocked name actor (some amount) vendor reason w1 {r = r} {w' = w'}
                (ground arith)).0
              out)
        | inl clean ↦
            elim (Result-cases (permission_gate name actor amount vendor threshold steps w1)) [
              | inr (x, w2, e) ↦ ground arith
              | inl ((some report, steps'), w2, e) ↦
                  ground
                    (arith, permission_gate_halts name actor amount vendor threshold steps w1 e)
              | inl ((none, steps'), w2, e) ↦
                  let (rec, s, let_in) =
                    permission_gate_passes name actor amount vendor threshold steps w1 e in
                  let (_, _, _, permitted) = enforce_spend_ok _ _ _ _ _ _ _ _ let_in in
                  let (known, safe) = guardrail_check_clean registry w.tick name args clean in
                  (known, safe, clean, (rec, permitted))
            ]
      ]

  run_and_audit-executed :
      (registry : Registry) (name : String) (args : Dict (Value p.Float)) (actor : String)
      (amount : Option p.Float) (vendor : Option String) (steps : List Step) (w : World)
      {r : Report} {w' : World}
      → run_and_audit registry name args actor amount vendor steps w ≡ (ok r, w')
      → r.outcome ≡ executed
  unfolding run_and_audit
  run_and_audit-executed registry name args actor amount vendor steps w h =
      elim (Result-cases (run_skill registry name args w)) [
        | inr (x, w1, e) ↦ ground arith
        | inl ((d, label), w1, e) ↦
            elim (Result-cases (
              audited "payment" vendor (amount_or amount) "executed" actor
                (("skill", str name) ∷ ("sandbox", str label) ∷ []) w1)) [
                  | inr (x, w2, e2) ↦ ground arith
                  | inl (a, w2, e2) ↦ ground arith
                ]
      ]

  -- What a report says of a call with an amount: it was executed, or there is no result; and an
  -- escalation has changed neither the graph nor the ledger.
  pub execute-cases :
      (registry : Registry) (name : String) (args : Dict (Value p.Float)) (actor : String)
      (amount : p.Float) (vendor : Option String) (threshold : Option p.Float) (w : World)
      {r : Report} {w' : World}
      → execute registry name args actor (some amount) vendor threshold w ≡ (ok r, w')
      → (r.outcome ≡ executed)
        ⊎ ((r.outcome ≡ blocked) × (r.result ≡ none))
        ⊎ ((r.outcome ≡ escalated)
            × (r.result ≡ none)
            × (w'.graph ≡ w.graph)
            × (w'.ledger ≡ w.ledger))
  unfolding execute
  execute-cases registry name args actor amount vendor threshold w {r} {w'} h =
      let steps : List Step = record { step = "guardrail"; status = "ok" } ∷ [] in
      let w1 : World = record w { tick = w.tick + 2 } in
      elim (Option-cases (guardrail_check registry w.tick name args)) [
        | inr (reason, bad) ↦ inr (
            inl (
              block-blocked name actor (some amount) vendor reason w1 {r = r} {w' = w'}
                (ground arith)))
        | inl clean ↦
            elim (Result-cases (permission_gate name actor amount vendor threshold steps w1)) [
              | inr (x, w2, e) ↦ ground arith
              | inl ((some report, steps'), w2, e) ↦ inr (
                  inr (
                    ground
                      (arith, permission_gate_halts name actor amount vendor threshold steps w1 e)))
              | inl ((none, steps'), w2, e) ↦ inl (
                  run_and_audit-executed registry name args actor (some amount) vendor steps' w2
                    {r = r} {w' = w'} (ground arith))
            ]
      ]
