-- ===== src/Lib.antt =====
-- A model of the core of the NemoClaw agent, which pays the invoices of a small business under an
-- approval gate, a vendor policy and an audit log, and watches its books for findings, with the theorems
-- that hold of it.
--
-- How the parts work together. An HTTP-402 invoice enters payments/payment_402_handler.py (Resolve).
-- It asks the vendor policy (Policy), scores the amount against the vendor's history in the graph
-- (Graph, Anomaly), and either asks for an approval (Approval) or has the harness run the skill that pays
-- (Harness, Stripe). The harness checks the arguments, asks the approval gate, runs the skill and writes
-- the audit log (Audit, on the hash chain of Chain). A payment ends in the ledger (Ledger) and in the
-- graph. A switch of vendors (Switch) asks the same policy, makes a subscription, and writes to the same
-- ledger, graph and audit log. Apart from this, the endpoints of payments/mpp_server.py (Earn) serve paid
-- calls: they check the token, have the platform's identity authorized (Governance), run a skill and write
-- the earning to the audit log. The file of a tenant says where its model calls may go (Tenancy).
--
-- Three agents stand on these. The platform agent (PlatformAgent) runs the pricing skill (Pricing) and
-- others as paid calls and adds up what they earn. The owner's agent (Reconcile) compares the fees of a
-- property (MockLedger) with its contract and pays a correction: it asks the approval gate, signs an
-- envelope (Envelope), pays over Stripe and writes the audit log. The property management agent
-- (Portfolio) issues cleaner cards and pays the crew (Money) and invoices the owners (Metering). Which
-- language model a task goes to is a table (Models).
--
-- The other half of the program watches the books. A cycle (Cycle) asks a connector for new transactions
-- (Connectors), loads those of the tenant's files through one adapter for each kind of file (Ingestion),
-- fills a graph with the expenses (Graph), finds what is out of the ordinary (Findings, with the
-- categories that follow the revenue of Correlation and the recurring charges of Invoices), and escalates
-- what the last cycle did not know. The profit and loss of the months (Pnl) goes into its report. Raw
-- invoices become a graph as well (Invoices), and the inventory of access (Baton) says who has which seat.
--
-- Which file models which part:
--   Chain         agent/audit_log.py: _read_head is read_head, _hash_entry is hash_entry, verify_chain is
--                 verify_chain; a file is the list of its lines, or none where it does not exist
--   Audit         agent/audit_log.py: append_action; payments/mpp_server.py: _write_earn_event is
--                 append_earn
--   Approval      agent/require_approval.py: create_request, decide, check, is_approved, list_pending,
--                 enforce_spend; the directory of YAML records is a dict keyed by request id
--   Policy        control_plane/policy_check.py: _mock_check is mock_check, check_policy is check_policy;
--                 control_plane/c1_client.py: fetch_c1_token, _entitlement_has_grant, check_policy_c1
--   Interactions  agent/interactions_log.py: append_interaction, read_interactions
--   Graph         gbrain/knowledge_graph.py: KnowledgeGraph, with add_vendor, record_payment and
--                 load_records
--   Anomaly       gbrain/anomaly_detector.py: score_invoice, scan
--   Stripe        payments/stripe_client.py: pay, collect_fee, cancel_subscription,
--                 create_subscription; payments/stripe_mcp.py: stripe_mcp_enabled, mcp_pay,
--                 mcp_collect_fee, mcp_create_subscription
--   Switch        procurement/vendor_switcher.py: switch_vendor
--   Harness       agent/nemoclaw_harness.py: execute with its stages; agent/skills/base.py: the registry
--   Scan          agent/nemoclaw_harness.py: _scan_unsafe
--   Ledger        payments/intuit_reconciler.py: reconcile
--   Resolve       payments/payment_402_handler.py: handle_402; agent/skills/pay_invoice_skill.py
--   Governance    control_plane/c1_governance.py: issue_nhi, authorize
--   Earn          payments/mpp_server.py: the endpoints, with the skill behind them as an argument
--   Tenancy       agent/tenancy.py: load_tenant; agent/claw_router.py: route_llm, assert_no_frontier
--   Envelope      payments/envelopes.py: sign_stripe_envelope, verify_envelope, with both signers
--   Money         payments/issuing.py: issue_cleaner_card, revoke_card; payments/payouts.py: run_payouts;
--                 payments/connect.py: ensure_owner_accounts
--   Metering      payments/metronome.py: calculate_ubp
--   MockLedger    data/mock_ledger.py: the properties, revenues, fees and crew
--   Portfolio     acts/property_mgmt_agent.py: handle_checkout_event, run_month_end_payouts,
--                 calculate_ubp_invoices, get_portfolio_summary
--   Turnover      acts/property_mgmt_agent.py: get_turnover, detect_stalls, clean_stalls; the stages that
--                 data/mock_ledger.py starts from (States)
--   Performance   acts/property_mgmt_agent.py: analyze_performance
--   Models        config/model_routing.py: route_for; config/demo_mode.py; the reasoning step of the
--                 agents
--   FeeAudit      acts/str_owner_agent.py: ingest_ledger, detect_fee_anomaly
--   Reconcile     acts/str_owner_agent.py: reconcile_month, trigger_payment
--   Rates         skills/dynamic_pricing_skill.py: the multipliers, _comp_anchor, _blend_rate, _confidence
--   Pricing       skills/dynamic_pricing_skill.py: recommend_price
--   PlatformAgent acts/platform_agent.py: the three serve functions and the metrics
--   Ingestion     ingestion/: is_chase_csv and parse_chase_csv (Chase), parse_spreadsheet (Spreadsheet),
--                 is_matrix and load_matrix (Matrix), load_transactions (Loader)
--   Invoices      gbrain/invoice_ingestion.py: parse_invoice, ingest_to_graph_records, detect_recurring
--                 (Recurring); gbrain/knowledge_graph.py: build_graph_from_invoices
--   Connectors    connectors/: get_connector, ManualFolderConnector, PlaidConnector
--   Pnl           analysis/pnl.py: compute_pnl
--   Correlation   analysis/revenue_correlation.py: the categories and ratio_findings_for_category
--   Findings      analysis/findings.py: the four kinds of findings, find
--   Cycle         analysis/loop.py: run_cycle with its files; an absent file is none
--   Baton         control_plane/baton_client.py: fetch_access, summarize_seats, unused_seats;
--                 control_plane/c1_governance.py: access_inventory
--   World         the state that these share: the files, the graph, ledger and accounts of the process
--   Platform      what the program uses and does not implement
--   Base, Json    what the modules share: tests, lists, dicts, actions that raise, JSON values
--   Examples      a concrete platform and concrete runs
--
-- The state is passed on explicitly: an operation takes the state and returns a result or an exception
-- with the state after it, since what was written before an exception stays written. A float, a line of a
-- file, a digest, the clock, the environment and the answers of services are fields of the record
-- Platform, over which everything is stated; what the logs rely on there is the record IsLawful. Each
-- reading of the clock or of a service has a number, and World counts them, so that two readings may
-- differ. An operation takes as many numbers as it can need.
--
-- Every loop of the source is a structural recursion here, on a list or, for the pages of Plaid, on the
-- number of pages that may still be read, so no definition has fuel of its own. The numbers 4096 and 20
-- are the source's: the bytes from which an append reads the end of the file, and those pages.
--
-- Not modelled: writers that race for one file; a file that other programs change between two operations;
-- a disk on which reading or appending to a log, or making the directory of a log or of a cycle's state,
-- fails; a file of last findings that holds a JSON list; parts of a second in the times of approvals;
-- amounts below zero, infinite or no number where the source turns dollars into cents; how Python's sum
-- rounds floats in the totals of a report;
-- texts that are only shown; the copies that the graph sends to a GBrain server; and the parts of the
-- repository around this core: the language-model clients, the HTTP routes, the texts of the reports, the
-- demonstration and the user interface. Readers of CSV and XLSX files, of dates and of regular
-- expressions, and the Plaid SDK, are fields of the Platform.
pub mod Base
pub mod Json
pub mod Platform
pub mod Chain
pub mod Approval
pub mod Audit
pub mod Policy
pub mod Interactions
pub mod Governance
pub mod Graph
pub mod Anomaly
pub mod Stripe
pub mod Switch
pub mod Ingestion
pub mod Pnl
pub mod Invoices
pub mod Correlation
pub mod Findings
pub mod Connectors
pub mod Cycle
pub mod Baton
pub mod World
pub mod Scan
pub mod Harness
pub mod Ledger
pub mod Resolve
pub mod Earn
pub mod Tenancy
pub mod Envelope
pub mod MockLedger
pub mod Money
pub mod Metering
pub mod Portfolio
pub mod Models
pub mod Turnover
pub mod Performance
pub mod FeeAudit
pub mod Reconcile
pub mod Rates
pub mod Pricing
pub mod PlatformAgent
mod Examples
