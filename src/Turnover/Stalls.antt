-- ===== src/Turnover/Stalls.antt =====
-- Which handoffs are chased, and whom the agent suggests (acts/property_mgmt_agent.py).
use nemoclaw_smb.Base.{◌≡◌, ◌≢◌, String, true, Option, none, some}
use nemoclaw_smb.Base.Dict.{Dict, get}
use nemoclaw_smb.Platform.{Platform}
use nemoclaw_smb.Turnover.{Availability, CleanStall, Stall, StageState, TurnoverState, blocked}

module _ ⦃p : Platform⦄ where
  -- The stage of the stall is blocked in the state of its property, and it is assigned to the one
  -- who is at work there.
  pub record IsBlockedAt (states : Dict TurnoverState) (stall : Stall) : Type 0 where
    pub state : TurnoverState
    pub found : get stall.property_id states ≡ some state
    pub at_stage : StageState
    pub staged : get stall.stage state.stages ≡ some at_stage
    pub stuck : at_stage.status ≡ blocked
    pub assigned : stall.assigned_to ≡ at_stage.actor

  -- Nobody, or someone who is free and is not the one who is assigned.
  abbrev pub IsFreeOther : String → Option Availability → Type 0
  IsFreeOther assigned none = Unit
  IsFreeOther assigned (some a) = (a.available ≡ true) × (a.name ≢ assigned)

  pub record IsChased (states : Dict TurnoverState) (c : CleanStall) : Type 0 where
    pub clean : c.stall.stage ≡ "clean"
    pub held_up : IsBlockedAt states c.stall
    pub suggests : IsFreeOther c.stall.assigned_to c.suggested_cleaner
