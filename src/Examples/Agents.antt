-- ===== src/Examples/Agents.antt =====
-- Concrete runs of the agents (acts/property_mgmt_agent.py, acts/str_owner_agent.py,
-- acts/platform_agent.py), of the pricing skill and of the model table.
use nemoclaw_smb.Base.{
  insert_sorted, sort, ℕ, ◌≡◌, ◌⊎◌, refl, String, true, false, none, some, List, [], ◌∷◌, arith,
  map, member, nth,
}
use nemoclaw_smb.Base.Dict.{Dict, get}
use nemoclaw_smb.Base.Act.{Act, Result, ok, err, permission_error}
use nemoclaw_smb.Json.{Value}
use nemoclaw_smb.Approval.{Record, pending}
use nemoclaw_smb.Chain.{absent, verify_chain}
use nemoclaw_smb.Governance.{Nhi, issue_nhi}
use nemoclaw_smb.Graph.{empty}
use nemoclaw_smb.Metering.{InvoiceLine, OwnerInvoice, calculate_ubp}
use nemoclaw_smb.Metering.Totals.{IsSummed, calculate_ubp_lem}
use nemoclaw_smb.MockLedger.{
  get_ledger_summary, get_property, properties, management_fees_charged, list_properties_for_owner,
}
use nemoclaw_smb.Base.Integers.{pos}
use nemoclaw_smb.Models.{Provenance, note_reasoning, reasoned, demo_mode, model_routing, route_for}
use nemoclaw_smb.PlatformAgent.{Session, no_metrics}
use nemoclaw_smb.PlatformAgent.Earnings.{
  Call, IsAccounted, aeo, pricing, serve_all, serve_all-IsAccounted,
}
use nemoclaw_smb.Portfolio.{card_decision, handle_checkout_event}
use nemoclaw_smb.Portfolio.Checkout.{IsIssuedFor, handle_checkout_event_lem}
use nemoclaw_smb.Pricing.{PricingRecommendation, PricingRequest, recommend_price}
use nemoclaw_smb.Rates.{comp_anchor, middle}
use nemoclaw_smb.Pricing.Median.{IsMedian, IsOrdered, comp_anchor-IsMedian}
use nemoclaw_smb.Pricing.Anchor.{IsPriced, recommend_price_total}
use nemoclaw_smb.Reconcile.{
  PaymentResult, corrected_payment, report_of, ReconciliationReport, held_result, pay_or_hold,
  reconcile_month, trigger_payment,
}
use nemoclaw_smb.FeeAudit.{
  LedgerSummary, anomaly_result, demo_anomaly_trace, detect_fee_anomaly, ingest_ledger,
  reasoning_trace,
}
use nemoclaw_smb.Reconcile.Month.{IsReported, pay_or_hold_holds, reconcile_month_lem, transfer_id}
use nemoclaw_smb.Turnover.{CleanStall, clean_stalls, property_turnover_state}
use nemoclaw_smb.World.{World}
use nemoclaw_smb.World.Logged.{IsLogged}
use nemoclaw_smb.Examples.{desk}

abbrev start : World
start = record {
  tick = 0;
  audit = none;
  interactions = none;
  approvals = [];
  graph = empty;
  ledger = [];
  accounts = [];
}

calculate_ubp_lem_example :
    (invoice : OwnerInvoice) × (calculate_ubp "owner-002" "2026-05" ≡ ok invoice)
    × IsSummed invoice
    × (map (λ (l : InvoiceLine). l.property_id) invoice.line_items
        ≡ list_properties_for_owner "owner-002")
calculate_ubp_lem_example = calculate_ubp_lem "owner-002" "2026-05"

handle_checkout_event_lem_example :
    let done = handle_checkout_event "prop-001" "2026-06-01" start in
    (((card_decision 0).allowed ≡ false)
      × (done.0 ≡ err permission_error)
      × IsLogged [] start done.1)
    ⊎ (((card_decision 0).allowed ≡ true) × IsIssuedFor "prop-001" "2026-06-01" start done)
handle_checkout_event_lem_example = handle_checkout_event_lem "prop-001" "2026-06-01" start

in_order : IsOrdered
in_order = record {
  asymmetric = λ x y h. ground arith;
  transitive = λ x y z nx ny nz h k. ground arith;
}

-- The one in the middle of three, and the midpoint of the two in the middle of four.
three_comps : comp_anchor (265 ∷ 195 ∷ 230 ∷ []) ≡ ok 230
unfolding comp_anchor middle sort insert_sorted nth
three_comps = refl

comp_anchor-IsMedian_example :
    (m : ℕ) × (comp_anchor (300 ∷ 195 ∷ 230 ∷ 260 ∷ []) ≡ ok m)
    × IsMedian (300 ∷ 195 ∷ 230 ∷ 260 ∷ []) m
comp_anchor-IsMedian_example =
    comp_anchor-IsMedian in_order 300 (195 ∷ 230 ∷ 260 ∷ []) (refl, (refl, (refl, (refl, tt))))

abbrev request : PricingRequest
request = record {
  property_id = "prop-001";
  current_rate = 200;
  occupancy_rate = 1;
  local_events = [];
  comp_set_rates = [];
  season = "peak";
  day_of_week = "sat";
}

recommend_price_total_example :
    (rec : PricingRecommendation) × (w' : World) × (recommend_price request false start
      ≡ (ok rec, w'))
    × IsPriced request rec.recommended_rate
    × (w'.audit ≡ start.audit)
recommend_price_total_example =
    recommend_price_total in_order request false start (refl, (refl, (refl, tt)))

abbrev opened : Session
opened = record { world = start; metrics = no_metrics }

abbrev listing_audit : Act World (Dict (Value ℕ))
listing_audit w = (ok [], w)

abbrev two_calls : List Call
two_calls = pricing request "mpp_tok_demo" false ∷ aeo listing_audit "mpp_tok_demo" ∷ []

serve_all-IsAccounted_example :
    IsAccounted (serve_all two_calls opened).0 opened (serve_all two_calls opened).1
serve_all-IsAccounted_example = serve_all-IsAccounted two_calls opened (tt, ((λ w. refl), tt))

abbrev owner_nhi : Nhi
owner_nhi = issue_nhi (desk.clock 0) "str-owner-agent" ("ledger:read" ∷ "payment:propose" ∷ []) 3600

abbrev paid_run : Result PaymentResult × World
paid_run = trigger_payment owner_nhi 5000 "prop-001" true start

abbrev payment_of : Result PaymentResult → PaymentResult
payment_of (ok paid) = paid
payment_of (err x) = held_result 0 ""

pay_or_hold_holds_example :
    let rid = transfer_id 90000 "prop-001" 3 in
    (w' : World) × (pay_or_hold owner_nhi 90000 "prop-001" start ≡ (ok (held_result 90000 rid), w'))
    × ((r : Record) × (get rid w'.approvals ≡ some r) × (r.status ≡ pending))
    × IsLogged [] start w'
unfolding demo_mode member get
pay_or_hold_holds_example =
    pay_or_hold_holds owner_nhi 90000 "prop-001" start refl refl refl (λ r h. cc h)

abbrev month_run : Result ReconciliationReport × World
month_run = reconcile_month owner_nhi "prop-001" "2026-05" false start

abbrev report_or : ReconciliationReport → Result ReconciliationReport → ReconciliationReport
report_or other (ok report) = report
report_or other (err x) = other

abbrev month_summary : LedgerSummary
month_summary = record {
  property_id = "prop-001";
  month = "2026-05";
  revenue_cents = 420000;
  contract_pct = 0;
  charged_pct = 0;
  contracted_fee_cents = 0;
  charged_fee_cents = 0;
  fee_delta_cents = pos 0;
}

abbrev month_trace : String × Provenance ℕ
month_trace = (
  demo_anomaly_trace month_summary 0 0,
  record {
    mode = "demo";
    model = "nvidia/nemotron-ultra-253b-v1[demo-cached]";
    latency_ms = 0;
    source = "cached";
  },
)

abbrev month_report : ReconciliationReport
month_report =
    report_of owner_nhi "prop-001" "2026-05" month_summary
      (anomaly_result month_summary 0 month_trace) none absent

reconcile_month_lem_example : IsReported "prop-001" "2026-05" start month_run.1 month_report
unfolding reconcile_month ingest_ledger get_ledger_summary get_property properties
    management_fees_charged get detect_fee_anomaly reasoning_trace route_for model_routing reasoned
    note_reasoning corrected_payment verify_chain
reconcile_month_lem_example =
    reconcile_month_lem owner_nhi "prop-001" "2026-05" false start {report = month_report}
      {w' = month_run.1} refl

abbrev chased_run : Result (List CleanStall)
chased_run = clean_stalls property_turnover_state

abbrev list_or_none : Result (List CleanStall) → List CleanStall
list_or_none (ok found) = found
list_or_none (err x) = []
