-- ===== src/Cycle.antt =====
-- A weekly or monthly cycle: fetch, load, find, and escalate what is new (analysis/loop.py).
pub mod Keeps
pub mod Escalated
pub mod Faults
use Prim.Native.String.{slice}
use nemoclaw_smb.Base.{
  ℕ, ◌+◌, ◌⊎◌, inl, inr, String, Bool, true, false, Option, none, some, List, [], ◌∷◌, ◌++◌, concat,
  length, str_eq, str_le, if◌then◌else◌,
}
use nemoclaw_smb.Base.Dict.{Dict, contains, put}
use nemoclaw_smb.Base.Act.{
  Act, Result, err, lift, ok, pure, raise, type_error, value_error, ◌>>=◌, ◌>>◌,
}
use nemoclaw_smb.Json.{Value, object, str}
use nemoclaw_smb.Platform.{Platform, Loaded, entry, malformed, not_object}
use nemoclaw_smb.Graph.{Graph, empty, record_payment}
use nemoclaw_smb.Tenancy.{Tenant}
use nemoclaw_smb.Ingestion.{Adapter, Direction, Transaction, expense, income}
use nemoclaw_smb.Ingestion.Loader.{load_transactions}
use nemoclaw_smb.Correlation.{Finding}
use nemoclaw_smb.Findings.Find.{find}
use nemoclaw_smb.Connectors.{Connector, Fault, Fetched, State, connector_name, fetch, get_connector}

module _ ⦃p : Platform⦄ where
  open p use {Float}

  -- A line of escalations.jsonl.
  pub record Escalation : Type 0 where
    pub ts : String
    pub tenant : String
    pub mode : String
    pub key : String
    pub title : String
    pub reason : String

  -- The files of a tenant that a cycle reads and writes, `none` for one that does not exist, and a count
  -- of the readings of the outside world.
  pub record Files : Type 0 where
    pub tick : ℕ
    pub connector : Option (Loaded Float)
    pub findings : Option (Loaded Float)
    pub escalations : List Escalation

  pub record Summary : Type 0 where
    pub connector : String
    pub txns_fetched : ℕ
    pub txns_total : ℕ
    pub new_findings : ℕ
    pub report_path : Option String
    pub error : Option Fault

  -- `load_connector_state`: an absent or a malformed file is `{}`
  unfoldable pub load_connector_state : Option (Loaded Float) → State
  load_connector_state none = some []
  load_connector_state (some malformed) = some []
  load_connector_state (some not_object) = none
  load_connector_state (some (entry d)) = some d

  abbrev state_file : State → Loaded Float
  state_file none = not_object
  state_file (some d) = entry d

  -- an `OSError` is only logged
  unfoldable pub save_connector_state : State → Files → Files
  save_connector_state state w =
      let later : Files = record w { tick = w.tick + 1 } in
      if p.can_write w.tick "connector.json"
      then record later { connector = some (state_file state) }
      else later

  -- `load_last_findings`; a file that holds no object, which no cycle writes, is taken for a fault
  unfoldable pub load_last_findings : Option (Loaded Float) → Result (Dict (Value Float))
  load_last_findings none = ok []
  load_last_findings (some malformed) = ok []
  load_last_findings (some not_object) = err type_error
  load_last_findings (some (entry d)) = ok d

  unfoldable pub save_last_findings : Dict (Value Float) → Files → Files
  save_last_findings found w =
      let later : Files = record w { tick = w.tick + 1 } in
      if p.can_write w.tick "findings.json"
      then record later { findings = some (entry found) }
      else later

  -- `_finding_key`
  abbrev pub finding_key : Finding → String
  finding_key f = concat (f.title ∷ "|" ∷ f.category ∷ [])

  -- `_diff_findings`
  unfoldable pub diff_findings : List Finding → Dict (Value Float) → List Finding
  diff_findings [] last = []
  diff_findings (f ∷ fs) last =
      let rest = diff_findings fs last in if contains (finding_key f) last then rest else f ∷ rest

  -- `updated_map`
  unfoldable pub findings_map : List Finding → Dict (Value Float) → Dict (Value Float)
  findings_map [] done = done
  findings_map (f ∷ fs) done =
      findings_map fs
        (put (finding_key f) (object (("title", str f.title) ∷ ("why", str f.why) ∷ [])) done)

  abbrev pub escalation_of : Tenant → String → String → Finding → Escalation
  escalation_of tenant mode ts f = record {
    ts = ts;
    tenant = tenant.slug;
    mode = mode;
    key = finding_key f;
    title = f.title;
    reason = f.why;
  }

  abbrev pub escalations_of : Tenant → String → String → List Finding → List Escalation
  escalations_of tenant mode ts [] = []
  escalations_of tenant mode ts (f ∷ fs) =
      escalation_of tenant mode ts f ∷ escalations_of tenant mode ts fs

  -- `_escalate`
  unfoldable pub escalate : Tenant → String → List Finding → Files → Files
  escalate tenant mode new w =
      let later : Files = record w { tick = w.tick + 1 } in
      if p.can_write w.tick "escalations.jsonl"
      then record later {
        escalations = w.escalations ++ escalations_of tenant mode (p.clock w.tick).iso new;
      }
      else later

  -- `_populate_graph`
  unfoldable pub populate_graph : List Transaction → Act Graph (Unit {0})
  populate_graph [] = pure tt
  populate_graph (t ∷ ts) =
      let rest = populate_graph ts in
      elim t.direction [
        | income ↦ rest
        | expense ↦ record_payment t.vendor t.amount t.date t.category none >> rest
      ]

  abbrev later_month : String → List Transaction → String
  later_month best [] = best
  later_month best (t ∷ ts) =
      let month = slice t.date 0 7 in later_month (if str_le month best then best else month) ts

  abbrev in_month : String → List Transaction → List Transaction
  in_month month [] = []
  in_month month (t ∷ ts) =
      let rest = in_month month ts in if str_eq (slice t.date 0 7) month then t ∷ rest else rest

  pub newest_period_transactions : List Transaction → List Transaction
  newest_period_transactions [] = []
  newest_period_transactions (t ∷ ts) = in_month (later_month (slice t.date 0 7) ts) (t ∷ ts)

  -- what a mode looks at
  unfoldable pub period_of : String → List Transaction → List Transaction
  period_of mode transactions =
      if str_eq mode "weekly" then newest_period_transactions transactions else transactions

  abbrev pub on_tick : {A : Type 0} → Adapter A → Act Files A
  on_tick f w = let (r, tick) = f w.tick in (r, record w { tick = tick })

  -- the first step: the transactions that were fetched, or the fault of the connector
  abbrev pub saved_fetch : Fault ⊎ Fetched → Act Files (ℕ × Option Fault)
  saved_fetch (inl fault) w = (ok (0, some fault), w)
  saved_fetch (inr (txns, state)) w = (ok (length txns, none), save_connector_state state w)

  -- the last steps, on the findings of this cycle
  unfoldable pub conclude : Tenant → String → List Finding → Act Files ℕ
  conclude tenant mode found w = elim (load_last_findings w.findings) [
    | err x ↦ (err x, w)
    | ok last ↦
        let new = diff_findings found last in
        (ok (length new), save_last_findings (findings_map found []) (escalate tenant mode new w))
  ]

  abbrev report_path_of : String → Tenant → Option String
  report_path_of mode tenant =
      if str_eq mode "weekly" then none else some (p.join_path tenant.data_root "report.md")

  -- What a cycle knows before it escalates.
  pub record Gathered : Type 0 where
    pub connector : Connector
    pub fetched : ℕ × Option Fault
    pub transactions : List Transaction
    pub found : List Finding

  abbrev pub checked_mode : String → Act Files (Unit {0})
  checked_mode mode =
      if str_eq mode "weekly"
      then pure tt
      else if str_eq mode "monthly"
      then pure tt
      else raise value_error

  abbrev pub prior_state : Act Files State
  prior_state w = (ok (load_connector_state w.connector), w)

  unfoldable pub find_step :
      Tenant → String → Connector → ℕ × Option Fault → List Transaction → Act Files Gathered
  find_step tenant mode connector fetched transactions =
      on_tick (find (period_of mode transactions) tenant.thresholds) >>= λ found. pure (record {
        connector = connector;
        fetched = fetched;
        transactions = transactions;
        found = found;
      })

  -- the graph is made of the transactions alone
  unfoldable pub graph_step :
      Tenant → String → Connector → ℕ × Option Fault → List Transaction → Act Files Gathered
  graph_step tenant mode connector fetched transactions =
      lift (populate_graph transactions empty).0
      >> find_step tenant mode connector fetched transactions

  unfoldable pub load_step : Tenant → String → Connector → ℕ × Option Fault → Act Files Gathered
  load_step tenant mode connector fetched =
      on_tick (load_transactions tenant) >>= graph_step tenant mode connector fetched

  unfoldable pub fetch_step : Tenant → String → Connector → State → Act Files Gathered
  fetch_step tenant mode connector prior =
      (on_tick (fetch connector tenant prior) >>= saved_fetch) >>= load_step tenant mode connector

  unfoldable pub connect_step : Tenant → String → Connector → Act Files Gathered
  connect_step tenant mode connector = prior_state >>= fetch_step tenant mode connector

  unfoldable pub gather : Tenant → String → Act Files Gathered
  gather tenant mode =
      checked_mode mode >> (lift (get_connector tenant) >>= connect_step tenant mode)

  abbrev pub summary_of : Tenant → String → Gathered → ℕ → Summary
  summary_of tenant mode g count = record {
    connector = connector_name g.connector;
    txns_fetched = g.fetched.0;
    txns_total = length g.transactions;
    new_findings = count;
    report_path = report_path_of mode tenant;
    error = g.fetched.1;
  }

  -- The report and the analysis file of a monthly cycle are only written for their readers.
  unfoldable pub run_cycle : Tenant → String → Act Files Summary
  run_cycle tenant mode = do
    g ← gather tenant mode
    count ← conclude tenant mode g.found
    pure (summary_of tenant mode g count)
