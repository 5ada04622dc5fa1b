-- ===== src/Cycle/Faults.antt =====
-- A cycle whose connector fails (analysis/loop.py).
use nemoclaw_smb.Base.{
  ℕ, ◌≡◌, ◌⊎◌, inl, inr, refl, ◌∙◌, String, Option, none, some, List, [], ◌∷◌, arith, length,
  str_eq_iff,
}
use nemoclaw_smb.Base.Dict.{Dict}
use nemoclaw_smb.Base.Act.{bind_ok, ok}
use nemoclaw_smb.Json.{Value}
use nemoclaw_smb.Platform.{Platform}
use nemoclaw_smb.Tenancy.{Tenant}
use nemoclaw_smb.Graph.{Graph, empty}
use nemoclaw_smb.Graph.History.{IsValid, empty-IsValid, record_payment_lem}
use nemoclaw_smb.Ingestion.{Direction, Transaction, expense, income}
use nemoclaw_smb.Ingestion.Loader.{load_transactions}
use nemoclaw_smb.Findings.Find.{find}
use nemoclaw_smb.Connectors.{Connector, Fault, State, fetch, get_connector}
use nemoclaw_smb.Correlation.{Finding}
use nemoclaw_smb.Cycle.{
  Files, Gathered, Summary, conclude, connect_step, diff_findings, escalate, fetch_step, find_step,
  gather, graph_step, load_connector_state, load_last_findings, load_step, on_tick, period_of,
  populate_graph, run_cycle, save_last_findings, summary_of,
}

Direction-cases : (d : Direction) → (d ≡ expense) ⊎ (d ≡ income)
Direction-cases expense = inl refl
Direction-cases income = inr refl

module _ ⦃p : Platform⦄ where
  populate_graph_total :
      (ts : List Transaction) (g : Graph) → IsValid g → (populate_graph ts g).0 ≡ ok tt
  unfolding populate_graph
  populate_graph_total [] g v = refl
  populate_graph_total (t ∷ ts) g v =
      let (g', done, v', _, _, _, _) =
        record_payment_lem t.vendor t.amount t.date t.category none g v in
      elim (Direction-cases t.direction) [
        | inl e ↦ ground (arith, done, populate_graph_total ts g' v')
        | inr e ↦ ground (arith, populate_graph_total ts g v)
      ]

  -- What a cycle has gathered, and the state in which it has.
  module _ (tenant : Tenant) (mode : String) (connector : Connector) (fetched : ℕ × Option Fault)
      (ts : List Transaction) (found : List Finding) where
    abbrev gathered : Gathered
    gathered = record { connector = connector; fetched = fetched; transactions = ts; found = found }

    graph_step_found :
        (w : Files) (later : ℕ)
        → find (period_of mode ts) tenant.thresholds w.tick ≡ (ok found, later)
        → graph_step tenant mode connector fetched ts w ≡ (ok gathered, record w { tick = later })
    unfolding graph_step find_step
    graph_step_found w later is_found = ground (arith, populate_graph_total ts empty empty-IsValid)

    load_step_found :
        (w : Files) (tick later : ℕ)
        → load_transactions tenant w.tick ≡ (ok ts, tick)
        → find (period_of mode ts) tenant.thresholds tick ≡ (ok found, later)
        → load_step tenant mode connector fetched w ≡ (ok gathered, record w { tick = later })
    unfolding load_step
    load_step_found w tick later loaded is_found =
        bind_ok (on_tick (load_transactions tenant)) (graph_step tenant mode connector fetched) w
          (ground arith)
        ∙ graph_step_found (record w { tick = tick }) later is_found

  -- a fetch that fails leaves the files as they are
  fetch_step_faulty :
      (tenant : Tenant) (mode : String) (connector : Connector) (prior : State) (fault : Fault)
      (w : Files) (tick : ℕ)
      → fetch connector tenant prior w.tick ≡ (ok (inl fault), tick)
      → fetch_step tenant mode connector prior w
        ≡ load_step tenant mode connector (0, some fault) (record w { tick = tick })
  unfolding fetch_step
  fetch_step_faulty tenant mode connector prior fault w tick faulty = ground (arith, faulty)

  gather_faulty :
      (tenant : Tenant) (mode : String) (connector : Connector) (fault : Fault) (w : Files)
      (tick : ℕ)
      → (mode ≡ "weekly") ⊎ (mode ≡ "monthly")
      → get_connector tenant ≡ ok connector
      → fetch connector tenant (load_connector_state w.connector) w.tick ≡ (ok (inl fault), tick)
      → gather tenant mode w
        ≡ load_step tenant mode connector (0, some fault) (record w { tick = tick })
  unfolding gather connect_step
  gather_faulty tenant mode connector fault w tick valid connected faulty = ground (
    arith,
    valid,
    connected,
    fetch_step_faulty tenant mode connector (load_connector_state w.connector) fault w tick faulty,
    str_eq_iff mode "weekly",
    str_eq_iff mode "monthly",
  )

  -- What is left of a cycle whose connector has failed.
  pub record IsCompleted (fault : Fault) (ts : List Transaction) (found : List Finding)
      (last : Dict (Value p.Float)) (w : Files) (s : Summary) (w' : Files) : Type 0 where
    pub reported : s.error ≡ some fault
    pub nothing_fetched : s.txns_fetched ≡ 0
    pub files_read : s.txns_total ≡ length ts
    pub escalated : s.new_findings ≡ length (diff_findings found last)
    pub state_kept : w'.connector ≡ w.connector

  conclude_found :
      (tenant : Tenant) (mode : String) (found : List Finding) (last : Dict (Value p.Float))
      (w : Files)
      → load_last_findings w.findings ≡ ok last
      → (w' : Files) × (conclude tenant mode found w ≡ (ok (length (diff_findings found last)), w'))
        × (w'.connector ≡ w.connector)
  unfolding conclude escalate save_last_findings
  conclude_found tenant mode found last w known =
      ((conclude tenant mode found w).1, ground (arith, known), ground (arith, known))

  -- If the tenant's connector fails to fetch, the files are loaded, the findings are made and the
  -- findings of the last cycle are readable, then a weekly or monthly cycle succeeds all the same. Its
  -- summary has the fault, no fetched transactions, all those of the files, and the findings that are
  -- new, and the state of the connector is as before.
  pub run_cycle_faulty :
      (tenant : Tenant) (mode : String) (connector : Connector) (fault : Fault)
      (ts : List Transaction) (found : List Finding) (last : Dict (Value p.Float)) (w : Files)
      (fetched loaded later : ℕ)
      → (mode ≡ "weekly") ⊎ (mode ≡ "monthly")
      → get_connector tenant ≡ ok connector
      → fetch connector tenant (load_connector_state w.connector) w.tick ≡ (ok (inl fault), fetched)
      → load_transactions tenant fetched ≡ (ok ts, loaded)
      → find (period_of mode ts) tenant.thresholds loaded ≡ (ok found, later)
      → load_last_findings w.findings ≡ ok last
      → (s : Summary) × (w' : Files) × (run_cycle tenant mode w ≡ (ok s, w'))
        × IsCompleted fault ts found last w s w'
  unfolding run_cycle
  run_cycle_faulty tenant mode connector fault ts found last w fetched loaded later valid connected
        faulty has_loaded is_found known =
      let g = gathered tenant mode connector (0, some fault) ts found in
      let gathers =
        gather_faulty tenant mode connector fault w fetched valid connected faulty
        ∙ load_step_found tenant mode connector (0, some fault) ts found
            (record w { tick = fetched }) loaded later has_loaded is_found in
      let (w', concluded, kept) =
        conclude_found tenant mode found last (record w { tick = later }) known in
      (
        summary_of tenant mode g (length (diff_findings found last)),
        w',
        ground (arith, gathers, concluded),
        record {
          reported = refl;
          nothing_fetched = refl;
          files_read = refl;
          escalated = refl;
          state_kept = kept;
        },
      )
