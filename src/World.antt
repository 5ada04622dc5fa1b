-- ===== src/World.antt =====
-- The state that one process of the agent works on: the files that it writes and what it holds in
-- memory, with a count of its readings of the outside world (clock and services).
pub mod Notes
pub mod Logged
use nemoclaw_smb.Base.{ℕ, ◌+◌, String, List, none, some}
use nemoclaw_smb.Base.Dict.{Dict, get}
use nemoclaw_smb.Base.Act.{Act, Result, ok, err, key_error}
use nemoclaw_smb.Json.{Value}
use nemoclaw_smb.Platform.{Platform, Moment}
use nemoclaw_smb.Chain.{File}
use nemoclaw_smb.Approval.{Store}
use nemoclaw_smb.Graph.{Graph}

-- A Stripe Connect account of an owner (payments/connect.py).
pub record ConnectedAccount : Type 0 where
  pub owner_id : String
  pub stripe_account_id : String
  pub status : String
  pub backend : String

module _ ⦃p : Platform⦄ where
  -- `audit`, `interactions` and `approvals` are on disk; the graph, the ledger of payments/intuit_reconciler.py and
  -- the account cache of payments/connect.py are objects of the process.
  pub record World : Type 0 where
    pub tick : ℕ
    pub audit : File
    pub interactions : File
    pub approvals : Store
    pub graph : Graph
    pub ledger : List (Dict (Value p.Float))
    pub accounts : Dict ConnectedAccount

  -- the readings of the clock from now on
  abbrev pub readings : World → ℕ → Moment
  readings w i = p.clock (w.tick + i)

  abbrev pub on_audit : {A : Type 0} → (Moment → Act File A) → Act World A
  on_audit f w =
      let (r, file) = f (p.clock w.tick) w.audit in
      (r, record w { tick = w.tick + 1; audit = file })

  -- six readings are more than a call of the gate takes
  abbrev pub on_approvals : {A : Type 0} → ((ℕ → Moment) → Act Store A) → Act World A
  on_approvals f w =
      let (r, s) = f (readings w) w.approvals in (r, record w { tick = w.tick + 6; approvals = s })

  abbrev pub on_graph : {A : Type 0} → Act Graph A → Act World A
  on_graph f w = let (r, g) = f w.graph in (r, record w { graph = g })

  -- One call of the outside world.
  abbrev pub outside : {A : Type 0} → (ℕ → Result A) → Act World A
  outside f w = (f w.tick, record w { tick = w.tick + 2 })

  -- `d[key]`
  abbrev pub item : {V : Type 0} → String → Dict V → Act World V
  item key d w = elim (get key d) [ none ↦ (err key_error, w) | some v ↦ (ok v, w) ]
