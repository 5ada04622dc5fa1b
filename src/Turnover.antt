-- ===== src/Turnover.antt =====
-- The turnover loop (acts/property_mgmt_agent.py, on the tables of data/mock_ledger.py): what each
-- property waits for, which handoffs are blocked, and which cleaner could take over a stalled clean.

pub mod States
pub mod Stalls
unfoldable pub use States.*
use nemoclaw_smb.Base.{
  ℕ, ◌+◌, String, Bool, true, false, not, ◌&&◌, ◌||◌, Option, none, some, List, [], ◌∷◌, ◌++◌,
  concat, map, sort, str_eq, str_le, if◌then◌else◌,
}
use nemoclaw_smb.Base.Dict.{Dict, get}
use nemoclaw_smb.Base.Act.{Result, ok, err, key_error}
use nemoclaw_smb.Platform.{Platform}
use nemoclaw_smb.MockLedger.{Member, Property, crew, properties}
use nemoclaw_smb.Portfolio.{cleaners}

-- _DEMO_NOW
abbrev pub demo_now : String
demo_now = "2026-06-15T18:00:00+00:00"

-- `d[key]`
abbrev pub lookup : {V : Type 0} → String → Dict V → Result V
lookup key d = elim (get key d) [ none ↦ err key_error | some v ↦ ok v ]

abbrev pub is_blocked : StageStatus → Bool
is_blocked blocked = true
is_blocked _ = false

abbrev is_done : StageStatus → Bool
is_done done = true
is_done _ = false

module _ ⦃p : Platform⦄ where
  open p use {Float}

  -- `max(0.0, (_DEMO_NOW - then).total_seconds() / 3600.0)`
  pub hours_since : String → Float
  hours_since updated_ts =
      let hours = p.div (p.total_seconds demo_now updated_ts) (p.of_ℕ 3600) in
      if p.lt (p.of_ℕ 0) hours then hours else p.of_ℕ 0

  pub record StageView : Type 0 where
    pub stage : String
    pub role : String
    pub status : StageStatus
    pub actor : String
    pub hours_in_stage : Float

  pub record TurnoverEvent : Type 0 where
    pub property_id : String
    pub property_name : String
    pub current_stage : String
    pub overall_status : String
    pub stages : List StageView

  pub record Stall : Type 0 where
    pub handoff_id : String
    pub property_id : String
    pub property_name : String
    pub stage : String
    pub from_actor : String
    pub to_actor : String
    pub assigned_to : String
    pub reason : String
    pub hours_stalled : Float

  pub stage_views : TurnoverState → List String → Result (List StageView)
  stage_views state [] = ok []
  stage_views state (stage ∷ rest) =
      let more = stage_views state rest in
      elim (lookup stage state.stages) [
        | err x ↦ err x
        | ok s ↦ elim (lookup stage stage_role) [
          | err x ↦ err x
          | ok role ↦ elim more [
            | err x ↦ err x
            | ok views ↦ ok (
                record {
                  stage = stage;
                  role = role;
                  status = s.status;
                  actor = s.actor;
                  hours_in_stage = p.round_to 1 (hours_since s.updated_ts);
                }
                ∷ views)
          ]
        ]
      ]

  abbrev any_blocked : List StageView → Bool
  any_blocked [] = false
  any_blocked (v ∷ vs) = is_blocked v.status || any_blocked vs

  abbrev all_done : List StageView → Bool
  all_done [] = true
  all_done (v ∷ vs) = is_done v.status && all_done vs

  pub overall : List StageView → String
  overall views =
      if any_blocked views then "stalled" else if all_done views then "ready" else "in_progress"

  -- the loop of `get_turnover`; a property without a state is passed over
  pub turnover_of : Dict TurnoverState → List String → Result (List TurnoverEvent)
  turnover_of states [] = ok []
  turnover_of states (pid ∷ rest) =
      let more = turnover_of states rest in
      elim (get pid states) [
        | none ↦ more
        | some state ↦ elim (stage_views state turnover_stages) [
          | err x ↦ err x
          | ok views ↦ elim (lookup pid properties) [
            | err x ↦ err x
            | ok prop ↦ elim more [
              | err x ↦ err x
              | ok events ↦ ok (
                  record {
                    property_id = pid;
                    property_name = prop.name;
                    current_stage = state.current_stage;
                    overall_status = overall views;
                    stages = views;
                  }
                  ∷ events)
            ]
          ]
        ]
      ]

  abbrev pub sorted_ids : Dict TurnoverState → List String
  sorted_ids states = sort str_le (map (λ (e : String × TurnoverState). e.0) states)

  pub get_turnover : Option String → Result (List TurnoverEvent)
  get_turnover none = turnover_of property_turnover_state (sorted_ids property_turnover_state)
  get_turnover (some pid) =
      turnover_of property_turnover_state
        (if str_eq pid "" then sorted_ids property_turnover_state else pid ∷ [])

  abbrev pub or_stage : Option String → String → String
  or_stage none stage = stage
  or_stage (some prior) stage = prior

  abbrev reason_of : StageState → String → String
  reason_of s stage = elim s.reason [ none ↦ concat (stage ∷ " blocked" ∷ []) | some r ↦ r ]

  abbrev pub stall_at : String → String → String → String → String → StageState → Stall
  stall_at pid name from_role to_role stage s = record {
    handoff_id = concat (pid ∷ ":" ∷ stage ∷ []);
    property_id = pid;
    property_name = name;
    stage = stage;
    from_actor = from_role;
    to_actor = to_role;
    assigned_to = s.actor;
    reason = reason_of s stage;
    hours_stalled = p.round_to 1 (hours_since s.updated_ts);
  }

  -- One stall: the roles of the handoff and the name of the property, each of which may be missing.
  unfoldable pub stall_of : String → Option String → String → StageState → Result Stall
  stall_of pid prior stage s = elim (lookup pid properties) [
    | err x ↦ err x
    | ok prop ↦ elim (lookup (or_stage prior stage) stage_role) [
      | err x ↦ err x
      | ok from_role ↦ elim (lookup stage stage_role) [
        | err x ↦ err x
        | ok to_role ↦ ok (stall_at pid prop.name from_role to_role stage s)
      ]
    ]
  ]

  -- the inner loop of `detect_stalls`, with the stage before
  unfoldable pub stalls_from :
      String → TurnoverState → Option String → List String → Result (List Stall)
  stalls_from pid state prior [] = ok []
  stalls_from pid state prior (stage ∷ rest) =
      let more = stalls_from pid state (some stage) rest in
      elim (lookup stage state.stages) [
        | err x ↦ err x
        | ok s ↦
            if is_blocked s.status
            then elim (stall_of pid prior stage s) [
              | err x ↦ err x
              | ok stall ↦ elim more [ err x ↦ err x | ok stalls ↦ ok (stall ∷ stalls) ]
            ]
            else more
      ]

  unfoldable pub stalls_in : Dict TurnoverState → List String → Result (List Stall)
  stalls_in states [] = ok []
  stalls_in states (pid ∷ rest) =
      let more = stalls_in states rest in
      elim (lookup pid states) [
        | err x ↦ err x
        | ok state ↦ elim (stalls_from pid state none turnover_stages) [
          | err x ↦ err x
          | ok here ↦ elim more [ err x ↦ err x | ok stalls ↦ ok (here ++ stalls) ]
        ]
      ]

  unfoldable pub detect_stalls : Dict TurnoverState → Result (List Stall)
  detect_stalls states = stalls_in states (sorted_ids states)

  pub record Availability : Type 0 where
    pub id : String
    pub name : String
    pub free_from : Option String
    pub available : Bool

  abbrev free_at_demo_now : Option String → Bool
  free_at_demo_now none = false
  free_at_demo_now (some ff) = p.le (p.of_ℕ 0) (p.total_seconds demo_now ff)

  abbrev availability_of : Member → Availability
  availability_of m = record {
    id = m.id;
    name = m.name;
    free_from = get m.id crew_availability;
    available = free_at_demo_now (get m.id crew_availability);
  }

  pub cleaner_availability : List Availability
  cleaner_availability = map availability_of (cleaners crew)

  pub record CleanStall : Type 0 where
    pub stall : Stall
    pub assigned_cleaner : Option Availability
    pub suggested_cleaner : Option Availability
    pub crew_availability : List Availability

  -- the first who is free and is not the one who is assigned
  unfoldable pub suggested : String → List Availability → Option Availability
  suggested assigned [] = none
  suggested assigned (a ∷ rest) =
      let later = suggested assigned rest in
      if a.available then if str_eq a.name assigned then later else some a else later

  -- `by_name.get(name)`, where a later entry of the same name counts
  unfoldable pub by_name : String → List Availability → Option Availability
  by_name name [] = none
  by_name name (a ∷ rest) = elim (by_name name rest) [
    | some b ↦ some b
    | none ↦ if str_eq a.name name then some a else none
  ]

  unfoldable pub cleans : List Availability → List Stall → List CleanStall
  cleans avail [] = []
  cleans avail (h ∷ rest) =
      let more = cleans avail rest in
      if str_eq h.stage "clean"
      then (record {
        stall = h;
        assigned_cleaner = by_name h.assigned_to avail;
        suggested_cleaner = suggested h.assigned_to avail;
        crew_availability = avail;
      })
        ∷ more
      else more

  unfoldable pub clean_stalls : Dict TurnoverState → Result (List CleanStall)
  clean_stalls states = elim (detect_stalls states) [
    | err x ↦ err x
    | ok stalls ↦ ok (cleans cleaner_availability stalls)
  ]
