-- ===== src/Examples/Payments.antt =====
-- Concrete payments (payments/payment_402_handler.py and what it calls).
use nemoclaw_smb.Base.{
  ℕ, suc, ◌+◌, ◌≡◌, ◌↔◌, refl, String, true, false, Option, none, some, List, [], ◌∷◌, ◌++◌, length,
  after_prefix, sort, insert_sorted, member, str_eq,
}
use nemoclaw_smb.Base.Dict.{Dict, contains, get, put}
use nemoclaw_smb.Base.Act.{Result, ok, err}
use nemoclaw_smb.Json.{Value}
use nemoclaw_smb.Anomaly.{
  Anomaly, Invoice, by_vendor, scan, scan_groups, scan_vendor, score_invoice,
}
use nemoclaw_smb.Base.Members.{Among}
use nemoclaw_smb.Anomaly.Flagged.{IsFlagged, scan-IsFlagged}
use nemoclaw_smb.Approval.{
  Record, create_request, enforce_spend, requires_approval, validate_inputs,
}
use nemoclaw_smb.Audit.{action_payload, append_action}
use nemoclaw_smb.Chain.{append_with, hash_entry, last_piece, read_head, seal, tail_line}
use nemoclaw_smb.Ledger.{reconcile}
use nemoclaw_smb.Approval.Gate.{IsPermitted}
use nemoclaw_smb.Graph.{
  Graph, by_date, edge_of, edges_of, empty, ensured, is_known_vendor, normalize_name,
  record_payment, vendor_history, add_vendor,
}
use nemoclaw_smb.Graph.History.{IsValid, empty-IsValid, record_payment_lem}
use nemoclaw_smb.Harness.{
  Registry, audited, execute, guardrail_check, or_text, permission_gate, run_and_audit,
  run_registered, run_skill,
}
use nemoclaw_smb.Scan.{pattern_in, scan_unsafe, scan_value}
use nemoclaw_smb.Harness.Guarded.{execute_executed}
use nemoclaw_smb.Policy.{Decision, check_policy, load_policy, mock_check}
use nemoclaw_smb.Resolve.{
  conclude, do_escalation, record_escalation, settle, try_pay, Event, Resolution,
  effective_threshold, handle_402, pay_invoice_skill, skill_args,
}
use nemoclaw_smb.Resolve.Paid.{anomaly_of, handle_402_paid}
use nemoclaw_smb.Resolve.Escalated.{handle_402_escalation}
use nemoclaw_smb.Stripe.{
  get_stripe, is_live_key, is_test_key, key_or, mock_id, pay, pay_direct, payment,
  stripe_mcp_enabled,
}
use nemoclaw_smb.Stripe.Modes.{pay_live_key}
use nemoclaw_smb.Switch.{NewVendor, switch_vendor}
use nemoclaw_smb.Switch.Cascade.{IsSwitched, switch_vendor_lem}
use nemoclaw_smb.World.{World}
use nemoclaw_smb.Examples.{desk}

abbrev registry : Registry
registry = ("pay_invoice_skill", pay_invoice_skill) ∷ []

abbrev start : World
start = record {
  tick = 0;
  audit = none;
  interactions = none;
  approvals = [];
  graph = empty;
  ledger = [];
  accounts = [];
}

abbrev bill : ℕ → Event
bill amount = record { vendor = "AWS"; amount = amount; date = "2026-06-01"; invoice_id = "inv_1" }

pay_live_key_example :
    pay 0 "AWS" 312 none
    ≡ payment (mock_id "AWS" 312 (key_or none "AWS" 312)) "succeeded" 312 "AWS" "mock"
unfolding is_live_key after_prefix
pay_live_key_example = pay_live_key 0 "AWS" 312 none "sk_live_1" refl refl

abbrev cheaper : NewVendor
cheaper = record {
  vendor = "AWS";
  amount = 120;
  frequency = some "monthly";
  monthly_equivalent = some 120;
  category = none;
  old_monthly_equivalent = some 300;
}

switch_vendor_lem_example : IsSwitched cheaper start (switch_vendor "OldCloud" cheaper start)
switch_vendor_lem_example = switch_vendor_lem "OldCloud" cheaper start

record_payment_lem_example :
    let edge =
      edge_of
        (normalize_name "AWS")
        312
        "2026-06-01"
        none
        (some false)
        (ensured "AWS" none empty) in
    (g' : Graph) × (record_payment "AWS" 312 "2026-06-01" none (some false) empty ≡ (ok tt, g'))
    × IsValid g'
    × (is_known_vendor "AWS" g' ≡ true)
    × (edges_of (normalize_name "AWS") g'
        ≡ sort by_date (edges_of (normalize_name "AWS") empty ++ (edge ∷ [])))
    × (length (vendor_history "AWS" g') ≡ suc (length (vendor_history "AWS" empty)))
    × ((k : String) → str_eq (normalize_name "AWS") k ≡ false → edges_of k g' ≡ edges_of k empty)
record_payment_lem_example =
    record_payment_lem "AWS" 312 "2026-06-01" none (some false) empty empty-IsValid

abbrev invoice : ℕ → String → Invoice
invoice amount date = record { vendor = "AWS"; amount = amount; date = date }

abbrev three_invoices : List Invoice
three_invoices = invoice 100 "2026-01-01" ∷ invoice 100 "2026-02-01" ∷ invoice 900 "2026-03-01" ∷ []

abbrev outlier : Anomaly
outlier = score_invoice "AWS" 900 (100 ∷ 100 ∷ []) 2

one_flagged : scan three_invoices 2 ≡ outlier ∷ []
unfolding scan scan_groups scan_vendor by_vendor score_invoice sort insert_sorted get put
one_flagged = refl

scan-IsFlagged_example : Among (scan three_invoices 2) outlier ↔ IsFlagged 2 three_invoices outlier
scan-IsFlagged_example = scan-IsFlagged three_invoices 2 outlier

execute_executed_example :
    (contains "pay_invoice_skill" registry ≡ true)
    × (scan_unsafe (skill_args (bill 312)) ≡ none)
    × (guardrail_check registry 0 "pay_invoice_skill" (skill_args (bill 312)) ≡ none)
    × ((rec : Record) × IsPermitted
          (λ i. desk.clock (start.tick + 2 + i))
          "purchase"
          (or_text (some "AWS") "unknown")
          312
          (some 500)
          []
          rec)
unfolding pay pay_direct stripe_mcp_enabled get_stripe is_test_key is_live_key after_prefix
    handle_402 conclude try_pay settle pay_invoice_skill effective_threshold do_escalation
    record_escalation execute guardrail_check permission_gate run_and_audit run_skill run_registered
    audited scan_unsafe scan_value pattern_in enforce_spend requires_approval validate_inputs
    create_request append_action action_payload append_with read_head tail_line last_piece seal
    hash_entry check_policy load_policy mock_check record_payment normalize_name vendor_history
    add_vendor is_known_vendor reconcile score_invoice get put contains member sort insert_sorted
execute_executed_example =
    execute_executed registry "pay_invoice_skill" (skill_args (bill 312)) "agent" 312 (some "AWS")
      (some 500) start refl refl

handle_402_paid_example :
    (threshold : ℕ) × (policy : Decision) × (rec : Record) × (effective_threshold none
      ≡ ok threshold)
    × (check_policy 0 "AWS" 312 "agent" none ≡ ok policy)
    × (policy.allowed ≡ true)
    × ((anomaly_of (bill 312) start).is_anomaly ≡ false)
    × (contains "pay_invoice_skill" registry ≡ true)
    × (scan_unsafe (skill_args (bill 312)) ≡ none)
    × IsPermitted
        (λ i. desk.clock (start.tick + 2 + 2 + i))
        "purchase"
        (or_text (some "AWS") "unknown")
        312
        (some threshold)
        []
        rec
unfolding pay pay_direct stripe_mcp_enabled get_stripe is_test_key is_live_key after_prefix
    handle_402 conclude try_pay settle pay_invoice_skill effective_threshold do_escalation
    record_escalation execute guardrail_check permission_gate run_and_audit run_skill run_registered
    audited scan_unsafe scan_value pattern_in enforce_spend requires_approval validate_inputs
    create_request append_action action_payload append_with read_head tail_line last_piece seal
    hash_entry check_policy load_policy mock_check record_payment normalize_name vendor_history
    add_vendor is_known_vendor reconcile score_invoice get put contains member sort insert_sorted
handle_402_paid_example = handle_402_paid registry (bill 312) none start refl refl

abbrev big_run : Result Resolution × World
big_run = handle_402 registry (bill 900) none start

abbrev payment_of : Result Resolution → Option (Dict (Value ℕ))
payment_of (ok r) = r.payment
payment_of (err x) = none

handle_402_escalation_example :
    (payment_of big_run.0 ≡ none) × (big_run.1.graph ≡ empty) × (big_run.1.ledger ≡ [])
unfolding pay pay_direct stripe_mcp_enabled get_stripe is_test_key is_live_key after_prefix
    handle_402 conclude try_pay settle pay_invoice_skill effective_threshold do_escalation
    record_escalation execute guardrail_check permission_gate run_and_audit run_skill run_registered
    audited scan_unsafe scan_value pattern_in enforce_spend requires_approval validate_inputs
    create_request append_action action_payload append_with read_head tail_line last_piece seal
    hash_entry check_policy load_policy mock_check record_payment normalize_name vendor_history
    add_vendor is_known_vendor reconcile score_invoice get put contains member sort insert_sorted
handle_402_escalation_example = handle_402_escalation registry (bill 900) none start refl refl
