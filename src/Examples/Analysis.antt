-- ===== src/Examples/Analysis.antt =====
-- Runs of the ingestion, the analysis and the access inventory (ingestion/, analysis/, gbrain/,
-- control_plane/baton_client.py).
use nemoclaw_smb.Base.{
  Bool, str_eq_iff, ℕ, inr, ◌+◌, arith, ◌≡◌, ◌++◌, ◌⊎◌, refl, String, false, none, some, List, [],
  ◌∷◌, All, IsSorted, length, map, member, sort, str_eq, str_le, insert_sorted, without_char,
}
use nemoclaw_smb.Base.Dict.{contains, get, put}
use nemoclaw_smb.Base.Act.{Error, err, ok}
use nemoclaw_smb.Json.{str, object, real}
use nemoclaw_smb.Platform.{entry}
use nemoclaw_smb.Tenancy.{Tenant}
use nemoclaw_smb.Graph.{is_known_vendor, Graph, add_vendor, normalize_name, record_payment}
use nemoclaw_smb.Graph.History.{IsValid}
use nemoclaw_smb.Ingestion.{Transaction, dict_rows, expense, first_date, parse_date_iso, zip_row}
use nemoclaw_smb.Ingestion.Chase.{each, is_chase_csv, signed}
use nemoclaw_smb.Ingestion.Spreadsheet.{
  parse_amount_and_direction, parse_spreadsheet, read_rows_csv, resolve_column, resolve_columns,
  sheet_transaction,
}
use nemoclaw_smb.Ingestion.Matrix.{is_matrix}
use nemoclaw_smb.Ingestion.Loader.{
  chosen_files, column_map, dedup_from, include_globs, load_file, load_files, load_transactions,
  same_key, seen_in,
}
use nemoclaw_smb.Ingestion.Loaded.{IsClean, load_transactions-IsClean}
use nemoclaw_smb.Invoices.{Invoice, Raw, build_graph_from_invoices, parse_all, parse_invoice}
use nemoclaw_smb.Invoices.Payments.{billed, build_graph_from_invoices_lem, payments_at}
use nemoclaw_smb.Pnl.{compute_pnl, keys, net_of}
use nemoclaw_smb.Pnl.Buckets.{in_month}
use nemoclaw_smb.Pnl.Months.{IsReported, compute_pnl_lem}
use nemoclaw_smb.Correlation.{Finding}
use nemoclaw_smb.Connectors.{
  fetch_plaid, max_pages, no_token, plaid, manual_folder, fetch, fetch_manual, get_connector,
}
use nemoclaw_smb.Correlation.{
  build_correlated_categories, category_monthly_costs, is_auto_correlated, is_config_correlated,
  pearson_r, ratio_findings_for_category, ratio_findings_from, revenue_by_month,
}
use nemoclaw_smb.Findings.{
  expense_anomaly_findings, expenses_of, fixed_expenses, recurring_jump_findings, spike_finding,
  vendor_category, vendor_jumps,
}
use nemoclaw_smb.Findings.Find.{
  by_day, duplicate_charge_findings, duplicate_finding, duplicates_in, find, findings_with,
  top_recurring_findings,
}
use nemoclaw_smb.Invoices.Recurring.{
  amount_groups, by_vendor, detect_recurring, find_recurring_group, first_regular, frequency_of,
  recurring_vendors,
}
use nemoclaw_smb.Anomaly
use nemoclaw_smb.Envelope.{float_of}
use nemoclaw_smb.Anomaly.{scan, scan_groups, scan_vendor, score_invoice}
use nemoclaw_smb.Cycle.{
  Escalation, Files, Gathered, Summary, conclude, connect_step, diff_findings, escalate,
  escalation_of, fetch_step, find_step, findings_map, gather, graph_step, load_connector_state,
  load_last_findings, load_step, period_of, populate_graph, run_cycle, save_connector_state,
  save_last_findings,
}
use nemoclaw_smb.Cycle.Faults.{IsCompleted, run_cycle_faulty}
use nemoclaw_smb.Cycle.Escalated.{run_cycle_twice}
use nemoclaw_smb.Baton.{AccessGrant, summarize_seats}
use nemoclaw_smb.Baton.Summary.{IsSummed, grants_on, summarize_seats_lem}
use nemoclaw_smb.Ingestion.Matrix.{month_of}
use nemoclaw_smb.Examples.{desk}

abbrev shop : Tenant
shop = record {
  slug = "shop";
  data_root = "data";
  llm_routing = "local";
  sensitivity = "restricted";
  mode = "advisory";
  thresholds = [];
  brain_path = "brain";
  audit_path = "audit";
  local_model = none;
  ingestion = [];
}

abbrev start : Files
start = record { tick = 0; connector = none; findings = none; escalations = [] }

load_transactions-IsClean_example :
    (result : List Transaction) × (later : ℕ) × (load_transactions shop 0 ≡ (ok result, later))
    × IsClean (load_files shop ("bank.csv" ∷ []) 0).0 result
unfolding chosen_files include_globs get
load_transactions-IsClean_example = load_transactions-IsClean shop 0 ("bank.csv" ∷ []) refl

abbrev cloud : String → ℕ → Transaction
cloud date amount = record {
  date = date;
  vendor = "AWS";
  amount = amount;
  direction = expense;
  category = some "Cloud";
  source = "chase:bank.csv";
}

abbrev two_months : List Transaction
two_months = cloud "2026-06-02" 100 ∷ cloud "2026-05-02" 90 ∷ cloud "2026-06-03" 7 ∷ []

compute_pnl_lem_example :
    IsReported (in_month "2026-06" two_months) (get "2026-06" (compute_pnl two_months).monthly)
    × IsSorted str_le (keys (compute_pnl two_months).monthly)
    × ((compute_pnl two_months).margin_trend ≡ map net_of (compute_pnl two_months).monthly)
compute_pnl_lem_example = compute_pnl_lem two_months "2026-06" (λ e. cc e)

abbrev two_invoices : List Raw
two_invoices =
    (("vendor", str "AWS") ∷ ("amount", real 312) ∷ ("date", str "2026-06-01") ∷ [])
    ∷ (("description", str "GUSTO PAYROLL")
        ∷ ("amount", str "100")
        ∷ ("date", str "2026-06-02")
        ∷ [])
    ∷ []

normal_again : (s : String) → normalize_name (normalize_name s) ≡ normalize_name s
unfolding normalize_name
normal_again s = ground (arith, str_eq_iff s "Bearer")

build_graph_from_invoices_lem_example :
    ((x : Error) × ((parse_all two_invoices 0).0 ≡ err x)
      × (build_graph_from_invoices two_invoices 0 ≡ err x))
    ⊎ ((invs : List Invoice) × (g : Graph) × ((parse_all two_invoices 0).0 ≡ ok invs)
        × (build_graph_from_invoices two_invoices 0 ≡ ok g)
        × IsValid g
        × ((test : ℕ → String → Bool) (k : String) → payments_at test k g ≡ billed test k invs))
build_graph_from_invoices_lem_example = build_graph_from_invoices_lem normal_again two_invoices 0

abbrev seat : String → String → AccessGrant
seat principal resource = record {
  principal = principal;
  resource = resource;
  entitlement = "member";
  last_used = none;
  source_connector = "baton";
}

abbrev seats_taken : List AccessGrant
seats_taken = seat "ann" "slack" ∷ seat "bob" "slack" ∷ seat "ann" "figma" ∷ seat "ann" "slack" ∷ []

summarize_seats_lem_example :
    IsSummed (grants_on "slack" seats_taken) (get "slack" (summarize_seats seats_taken))
summarize_seats_lem_example = summarize_seats_lem seats_taken "slack"

-- What is read of the desk's spreadsheet, and what is found in it.
abbrev bank_row : String → Transaction
bank_row date = record {
  date = date;
  vendor = "AWS";
  amount = 100;
  direction = expense;
  category = some "Cloud";
  source = "spreadsheet:bank.csv";
}

abbrev bank : List Transaction
bank = bank_row "2026-05-02" ∷ bank_row "2026-06-02" ∷ []

abbrev top : Finding
top = record {
  title = "Top recurring: AWS";
  category = "owner-001";
  monthly_impact = 100;
  annual_impact = 1200;
  confidence = "low";
  why = "AWS is a monthly charge averaging $1 (1 occurrences, $1/yr annualized).";
  action = "Review owner-001: AWS costs $1/yr — confirm still needed or renegotiate.";
}

loaded : (tick : ℕ) → load_transactions shop tick ≡ (ok bank, tick)
unfolding load_transactions chosen_files include_globs get load_files load_file is_matrix month_of
    is_chase_csv member without_char put column_map parse_spreadsheet read_rows_csv dict_rows
    zip_row resolve_columns resolve_column each sheet_transaction parse_date_iso first_date
    parse_amount_and_direction signed dedup_from seen_in same_key sort insert_sorted
loaded tick = refl

found : (tick : ℕ) → find bank [] tick ≡ (ok (top ∷ []), tick)
unfolding get put member sort insert_sorted find findings_with expenses_of revenue_by_month
    build_correlated_categories category_monthly_costs is_auto_correlated is_config_correlated
    pearson_r ratio_findings_for_category ratio_findings_from expense_anomaly_findings
    fixed_expenses recurring_jump_findings spike_finding vendor_category vendor_jumps by_day
    duplicate_charge_findings duplicate_finding duplicates_in top_recurring_findings amount_groups
    by_vendor detect_recurring find_recurring_group first_regular frequency_of recurring_vendors
    scan scan_groups scan_vendor score_invoice parse_all parse_invoice float_of parse_date_iso
    first_date Anomaly.by_vendor
found tick = refl

abbrev gathered : Gathered
gathered = record {
  connector = manual_folder;
  fetched = (2, none);
  transactions = bank;
  found = top ∷ [];
}

abbrev with_state : Files → Files
with_state w = record w { tick = w.tick + 1; connector = some (entry []) }

gathers :
    (w : Files)
    → load_connector_state w.connector ≡ some []
    → gather shop "monthly" w ≡ (ok gathered, with_state w)
unfolding gather connect_step fetch_step load_step graph_step find_step get_connector get fetch
    fetch_manual save_connector_state populate_graph record_payment add_vendor normalize_name
    is_known_vendor contains put sort insert_sorted period_of
gathers w state = ground (arith, loaded w.tick, loaded (w.tick + 1), found (w.tick + 1))

abbrev ran : ℕ → Summary
ran new = record {
  connector = "ManualFolderConnector";
  txns_fetched = 2;
  txns_total = 2;
  new_findings = new;
  report_path = some "report.md";
  error = none;
}

abbrev after_cycle : ℕ → Files
after_cycle tick = record {
  tick = tick;
  connector = some (entry []);
  findings = some (
      entry (
        (
          "Top recurring: AWS|owner-001",
          object (("title", str top.title) ∷ ("why", str top.why) ∷ []),
        )
        ∷ []));
  escalations = escalation_of shop "monthly" "2026-06-01T09:00:00" top ∷ [];
}

first_cycle : run_cycle shop "monthly" start ≡ (ok (ran 1), after_cycle 3)
unfolding run_cycle conclude load_last_findings diff_findings contains get put findings_map escalate
    save_last_findings load_connector_state
first_cycle = ground (arith, gathers start refl)

second_cycle : run_cycle shop "monthly" (after_cycle 3) ≡ (ok (ran 0), after_cycle 6)
unfolding run_cycle conclude load_last_findings diff_findings contains get put findings_map escalate
    save_last_findings load_connector_state
second_cycle = ground (arith, gathers (after_cycle 3) refl)

-- The same shop with Plaid, for which no token is set.
abbrev plaid_shop : Tenant
plaid_shop = record shop { ingestion = ("connector", str "plaid") ∷ [] }

run_cycle_faulty_example :
    (s : Summary) × (w' : Files) × (run_cycle plaid_shop "monthly" start ≡ (ok s, w'))
    × IsCompleted no_token bank (top ∷ []) [] start s w'
unfolding get_connector get fetch fetch_plaid max_pages load_connector_state load_last_findings
    load_transactions chosen_files include_globs load_files load_file is_matrix month_of
    is_chase_csv member without_char put column_map parse_spreadsheet read_rows_csv dict_rows
    zip_row resolve_columns resolve_column each sheet_transaction parse_date_iso first_date
    parse_amount_and_direction signed dedup_from seen_in same_key sort insert_sorted period_of
run_cycle_faulty_example =
    run_cycle_faulty plaid_shop "monthly" plaid no_token bank (top ∷ []) [] start 20 20 20
      (inr refl) refl refl refl (found 20) refl

run_cycle_twice_example :
    (new : List Escalation) × (new' : List Escalation) × ((after_cycle 3).escalations
      ≡ start.escalations ++ new)
    × ((after_cycle 6).escalations ≡ (after_cycle 3).escalations ++ new')
    × (1 ≡ length new)
    × (0 ≡ length new')
    × All (λ (e : Escalation). All (λ (e' : Escalation). str_eq e.key e'.key ≡ false) new') new
run_cycle_twice_example =
    run_cycle_twice shop "monthly" "monthly" start (after_cycle 3) (after_cycle 6) (ran 1) (ran 0)
      (λ i path. refl) first_cycle second_cycle
