-- ===== src/Turnover/States.antt =====
-- The stages of a turnover, and the tables that the demonstration starts from (data/mock_ledger.py).
use nemoclaw_smb.Base.{String, Option, none, some, List, [], ◌∷◌}
use nemoclaw_smb.Base.Dict.{Dict}

pub data StageStatus : Type 0 where
  done in_progress waiting blocked : StageStatus

pub record StageState : Type 0 where
  pub status : StageStatus
  pub actor : String
  pub updated_ts : String
  pub reason : Option String

pub record TurnoverState : Type 0 where
  pub checkout_date : String
  pub current_stage : String
  pub stages : Dict StageState

abbrev stage_at : StageStatus → String → String → StageState
stage_at status actor updated_ts = record {
  status = status;
  actor = actor;
  updated_ts = updated_ts;
  reason = none;
}

abbrev stuck_at : String → String → String → StageState
stuck_at actor updated_ts reason = record {
  status = blocked;
  actor = actor;
  updated_ts = updated_ts;
  reason = some reason;
}

abbrev pub property_turnover_state : Dict TurnoverState
property_turnover_state =
    (
      "prop-001",
      record {
        checkout_date = "2026-06-15";
        current_stage = "inspect";
        stages =
            ("checkout", stage_at done "Guest party" "2026-06-15T11:02:00+00:00")
            ∷ ("clean", stage_at done "Maria S." "2026-06-15T14:31:00+00:00")
            ∷ (
              "inspect",
              stuck_at "Inspector (unassigned)" "2026-06-15T14:48:00+00:00"
                  "no inspector assigned 3h after cleaning finished",
            )
            ∷ ("ready", stage_at waiting "Owner agent" "2026-06-15T14:48:00+00:00")
            ∷ [];
      },
    )
    ∷ (
      "prop-002",
      record {
        checkout_date = "2026-06-14";
        current_stage = "ready";
        stages =
            ("checkout", stage_at done "Guest party" "2026-06-14T10:40:00+00:00")
            ∷ ("clean", stage_at done "James T." "2026-06-14T13:10:00+00:00")
            ∷ ("inspect", stage_at done "Dana R." "2026-06-14T15:05:00+00:00")
            ∷ ("ready", stage_at done "Owner agent" "2026-06-14T15:20:00+00:00")
            ∷ [];
      },
    )
    ∷ (
      "prop-003",
      record {
        checkout_date = "2026-06-15";
        current_stage = "clean";
        stages =
            ("checkout", stage_at done "Guest party" "2026-06-15T10:55:00+00:00")
            ∷ ("clean", stage_at in_progress "Maria S." "2026-06-15T16:30:00+00:00")
            ∷ ("inspect", stage_at waiting "Dana R." "2026-06-15T16:30:00+00:00")
            ∷ ("ready", stage_at waiting "Owner agent" "2026-06-15T16:30:00+00:00")
            ∷ [];
      },
    )
    ∷ (
      "prop-004",
      record {
        checkout_date = "2026-06-15";
        current_stage = "clean";
        stages =
            ("checkout", stage_at done "Guest party" "2026-06-15T11:10:00+00:00")
            ∷ (
              "clean",
              stuck_at "James T." "2026-06-15T13:00:00+00:00"
                  "cleaner not started 5h after checkout",
            )
            ∷ ("inspect", stage_at waiting "Dana R." "2026-06-15T13:00:00+00:00")
            ∷ ("ready", stage_at waiting "Owner agent" "2026-06-15T13:00:00+00:00")
            ∷ [];
      },
    )
    ∷ (
      "prop-005",
      record {
        checkout_date = "2026-06-13";
        current_stage = "ready";
        stages =
            ("checkout", stage_at done "Guest party" "2026-06-13T10:30:00+00:00")
            ∷ ("clean", stage_at done "Maria S." "2026-06-13T13:15:00+00:00")
            ∷ ("inspect", stage_at done "Dana R." "2026-06-13T15:00:00+00:00")
            ∷ ("ready", stage_at done "Owner agent" "2026-06-13T15:10:00+00:00")
            ∷ [];
      },
    )
    ∷ []

abbrev pub turnover_stages : List String
turnover_stages = "checkout" ∷ "clean" ∷ "inspect" ∷ "ready" ∷ []

abbrev pub stage_role : Dict String
stage_role =
    ("checkout", "guest")
    ∷ ("clean", "cleaner")
    ∷ ("inspect", "inspector")
    ∷ ("ready", "booking platform")
    ∷ []

abbrev pub crew_availability : Dict String
crew_availability =
    ("crew-001", "2026-06-15T13:00:00+00:00") ∷ ("crew-002", "2026-06-15T20:00:00+00:00") ∷ []
