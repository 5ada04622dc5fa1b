-- ===== src/Cycle/Keeps.antt =====
-- The steps of a cycle that leave its findings and escalations as they are (analysis/loop.py).
use nemoclaw_smb.Base.{ℕ, ◌≡◌, ◌⊎◌, inl, inr, refl, ap, String, Option, List, arith}
use nemoclaw_smb.Base.Act.{Act, Result-cases, bind_err, bind_ok, ◌>>=◌, lift}
use nemoclaw_smb.Platform.{Platform}
use nemoclaw_smb.Tenancy.{Tenant}
use nemoclaw_smb.Graph.{empty}
use nemoclaw_smb.Ingestion.{Adapter, Transaction}
use nemoclaw_smb.Ingestion.Loader.{load_transactions}
use nemoclaw_smb.Connectors.{Connector, Fault, Fetched, State, fetch, get_connector}
use nemoclaw_smb.Cycle.{
  Files, gather, find_step, graph_step, load_step, fetch_step, connect_step, checked_mode,
  prior_state, on_tick, saved_fetch, populate_graph, save_connector_state,
}

module _ ⦃p : Platform⦄ where
  -- a step that leaves the findings and the escalations as they are
  abbrev pub IsSame : Files → Files → Type 0
  IsSame w w' = (w'.findings ≡ w.findings) × (w'.escalations ≡ w.escalations)

  abbrev pub Keeps : {A : Type 0} → Act Files A → Type 0
  Keeps m = (w : Files) → IsSame w (m w).1

  Keeps-bind :
      {A B : Type 0} (m : Act Files A) (f : A → Act Files B)
      → Keeps m
      → ((a : A) → Keeps (f a))
      → Keeps (m >>= f)
  Keeps-bind m f first next w = elim (Result-cases (m w)) [
    | inl (a, w1, e) ↦
        let same = first w in
        let more = next a w1 in
        ground (arith, bind_ok m f w e, ap (λ r. r.1.findings) e, ap (λ r. r.1.escalations) e)
    | inr (x, w1, e) ↦
        let same = first w in
        ground (arith, bind_err m f w e, ap (λ r. r.1.findings) e, ap (λ r. r.1.escalations) e)
  ]

  saved_fetch-Keeps : (result : Fault ⊎ Fetched) → Keeps (saved_fetch result)
  unfolding save_connector_state
  saved_fetch-Keeps (inl fault) w = (refl, refl)
  saved_fetch-Keeps (inr (txns, state)) w = ground arith

  on_tick-Keeps : {A : Type 0} (f : Adapter A) → Keeps (on_tick f)
  on_tick-Keeps f w = (refl, refl)

  find_step-Keeps :
      (tenant : Tenant) (mode : String) (connector : Connector) (fetched : ℕ × Option Fault)
      (transactions : List Transaction)
      → Keeps (find_step tenant mode connector fetched transactions)
  unfolding find_step
  find_step-Keeps tenant mode connector fetched transactions w = ground arith

  graph_step-Keeps :
      (tenant : Tenant) (mode : String) (connector : Connector) (fetched : ℕ × Option Fault)
      (transactions : List Transaction)
      → Keeps (graph_step tenant mode connector fetched transactions)
  unfolding graph_step
  graph_step-Keeps tenant mode connector fetched transactions =
      Keeps-bind (lift (populate_graph transactions empty).0)
        (λ _. find_step tenant mode connector fetched transactions) (λ w. (refl, refl))
        (λ _. find_step-Keeps tenant mode connector fetched transactions)

  load_step-Keeps :
      (tenant : Tenant) (mode : String) (connector : Connector) (fetched : ℕ × Option Fault)
      → Keeps (load_step tenant mode connector fetched)
  unfolding load_step
  load_step-Keeps tenant mode connector fetched =
      Keeps-bind (on_tick (load_transactions tenant)) (graph_step tenant mode connector fetched)
        (on_tick-Keeps (load_transactions tenant)) (graph_step-Keeps tenant mode connector fetched)

  fetch_step-Keeps :
      (tenant : Tenant) (mode : String) (connector : Connector) (prior : State)
      → Keeps (fetch_step tenant mode connector prior)
  unfolding fetch_step
  fetch_step-Keeps tenant mode connector prior =
      Keeps-bind (on_tick (fetch connector tenant prior) >>= saved_fetch)
        (load_step tenant mode connector)
        (Keeps-bind (on_tick (fetch connector tenant prior)) saved_fetch
          (on_tick-Keeps (fetch connector tenant prior)) saved_fetch-Keeps)
        (load_step-Keeps tenant mode connector)

  pub gather-Keeps : (tenant : Tenant) (mode : String) → Keeps (gather tenant mode)
  unfolding gather connect_step
  gather-Keeps tenant mode =
      Keeps-bind (checked_mode mode) (λ _. lift (get_connector tenant) >>= connect_step tenant mode)
        (λ w. ground arith)
        (λ _.
          Keeps-bind (lift (get_connector tenant)) (connect_step tenant mode) (λ w. (refl, refl))
            (λ connector.
              Keeps-bind prior_state (fetch_step tenant mode connector) (λ w. (refl, refl))
                (fetch_step-Keeps tenant mode connector)))
