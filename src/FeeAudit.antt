-- ===== src/FeeAudit.antt =====
-- The fees of a property against its contract (acts/str_owner_agent.py).
use nemoclaw_smb.Base.{ℕ, ◌+◌, String, Bool, false, not, [], ◌∷◌, concat, if◌then◌else◌}
use nemoclaw_smb.Base.Act.{Act, Result, ok, err, pure, lift, ◌>>=◌}
use nemoclaw_smb.Base.Integers.{ℤ, pos, negsuc, difference, is_zero}
use nemoclaw_smb.Platform.{Platform}
use nemoclaw_smb.MockLedger.{fee_of, get_ledger_summary}
use nemoclaw_smb.Models.{Provenance, reasoned, route_for}
use nemoclaw_smb.Money.{dollars}
use nemoclaw_smb.World.{World}

module _ ⦃p : Platform⦄ where
  open p use {Float}

  -- whether a difference is over zero
  abbrev pub is_over : ℤ → Bool
  is_over (pos n) = not (is_zero (pos n))
  is_over (negsuc _) = false

  pub record LedgerSummary : Type 0 where
    pub property_id : String
    pub month : String
    pub revenue_cents : ℕ
    pub contract_pct : Float
    pub charged_pct : Float
    pub contracted_fee_cents : ℕ
    pub charged_fee_cents : ℕ
    pub fee_delta_cents : ℤ

  pub record AnomalyResult : Type 0 where
    pub is_anomaly : Bool
    pub expected_fee_cents : ℕ
    pub charged_fee_cents : ℕ
    pub overcharge_cents : ℤ
    pub reason : String
    pub model_used : String
    pub reasoning_trace : String
    pub reasoning_provenance : Provenance Float

  unfoldable pub ingest_ledger : String → String → Result LedgerSummary
  ingest_ledger property_id month = elim (get_ledger_summary property_id month) [
    | err x ↦ err x
    | ok raw ↦ ok (record {
      property_id = property_id;
      month = month;
      revenue_cents = raw.revenue_cents;
      contract_pct = raw.contracted_fee_pct;
      charged_pct = raw.charged_fee_pct;
      contracted_fee_cents = raw.contracted_fee_cents;
      charged_fee_cents = raw.charged_fee_cents;
      fee_delta_cents = raw.fee_delta_cents;
    })
  ]

  -- `f"{cents / 100:.2f}"`, also of a difference, and `f"{pct * 100:.1f}"`
  abbrev pub money_text : ℕ → String
  money_text cents = p.show_fixed 2 (dollars cents)

  abbrev pub difference_text : ℤ → String
  difference_text (pos n) = money_text n
  difference_text (negsuc n) = p.show_fixed 2 (p.sub (p.of_ℕ 0) (dollars (n + 1)))

  abbrev pub percent_text : Float → String
  percent_text pct = p.show_fixed 1 (p.mul pct (p.of_ℕ 100))

  pub demo_anomaly_trace : LedgerSummary → ℕ → ℕ → String
  demo_anomaly_trace summary expected charged =
      let diff = difference charged expected in
      concat (
        "[DEMO cached trace] Revenue: $"
        ∷ money_text summary.revenue_cents
        ∷ ". Contract rate: "
        ∷ percent_text summary.contract_pct
        ∷ "%. Charged rate: "
        ∷ percent_text summary.charged_pct
        ∷ "%. Expected fee: $"
        ∷ money_text expected
        ∷ ". Charged fee: $"
        ∷ money_text charged
        ∷ ". Delta: $"
        ∷ difference_text diff
        ∷ ". Conclusion: "
        ∷ (if is_over diff then "overcharge detected" else "no anomaly")
        ∷ "."
        ∷ [])

  pub anomaly_prompt : LedgerSummary → ℕ → ℕ → String
  anomaly_prompt summary expected charged = concat (
      "You are an STR management-fee auditor. Property "
      ∷ summary.property_id
      ∷ ", month "
      ∷ summary.month
      ∷ ". Revenue $"
      ∷ money_text summary.revenue_cents
      ∷ ". Contract rate "
      ∷ percent_text summary.contract_pct
      ∷ "%, charged rate "
      ∷ percent_text summary.charged_pct
      ∷ "%. Expected fee $"
      ∷ money_text expected
      ∷ ", charged fee $"
      ∷ money_text charged
      ∷ ". State in 2 sentences whether this is an overcharge and by how much."
      ∷ [])

  -- `_reasoning_trace`
  unfoldable pub reasoning_trace :
      LedgerSummary → ℕ → ℕ → Bool → Act World (String × Provenance Float)
  reasoning_trace summary expected charged live = lift (route_for "anomaly_detection") >>= λ model.
      λ w.
        let (made, w') =
          reasoned "anomaly reasoning" "owner" model live (anomaly_prompt summary expected charged)
            (demo_anomaly_trace summary expected charged) w in
        (ok made, w')

  abbrev pub anomaly_result : LedgerSummary → Float → String × Provenance Float → AnomalyResult
  anomaly_result summary contract (trace, provenance) =
      let expected = fee_of summary.revenue_cents contract in
      let charged = fee_of summary.revenue_cents summary.charged_pct in
      let overcharge = difference charged expected in
      record {
        is_anomaly = not (is_zero overcharge);
        expected_fee_cents = expected;
        charged_fee_cents = charged;
        overcharge_cents = overcharge;
        reason =
            if is_zero overcharge
            then "Charged fee matches contract rate."
            else concat (
                "Fee "
                ∷ (if is_over overcharge then "over" else "under")
                ∷ "charge detected: contract "
                ∷ percent_text contract
                ∷ "% vs charged "
                ∷ percent_text summary.charged_pct
                ∷ "% on $"
                ∷ money_text summary.revenue_cents
                ∷ " revenue."
                ∷ []);
        model_used = provenance.model;
        reasoning_trace = trace;
        reasoning_provenance = provenance;
      }

  unfoldable pub detect_fee_anomaly : LedgerSummary → Float → Bool → Act World AnomalyResult
  detect_fee_anomaly summary contract live =
      reasoning_trace summary (fee_of summary.revenue_cents contract)
        (fee_of summary.revenue_cents summary.charged_pct) live
      >>= λ traced. pure (anomaly_result summary contract traced)
