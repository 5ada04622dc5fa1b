-- ===== src/Performance.antt =====
-- The ranking of the properties by revenue (acts/property_mgmt_agent.py).
use nemoclaw_smb.Base.{
  ℕ, ◌+◌, String, Bool, ◌&&◌, none, some, List, [], ◌∷◌, leb, length, if◌then◌else◌,
}
use nemoclaw_smb.Base.Dict.{Dict, get}
use nemoclaw_smb.Base.Act.{Result, ok, err, key_error}
use nemoclaw_smb.Platform.{Platform}
use nemoclaw_smb.MockLedger.{hundredths, properties, revenue_of}
use nemoclaw_smb.Portfolio.{property_ids}

abbrev revenue_sum : List String → ℕ
revenue_sum [] = 0
revenue_sum (pid ∷ pids) = revenue_of pid + revenue_sum pids

abbrev at_least_one : ℕ → ℕ
at_least_one n = if leb 1 n then n else 1

module _ ⦃p : Platform⦄ where
  open p use {Float}

  -- The record that the ranking returns for a property.
  pub record Standing : Type 0 where
    pub property_id : String
    pub property_name : String
    pub revenue_cents : ℕ
    pub portfolio_avg_cents : ℕ
    pub pct_vs_avg : Float
    pub status : String
    pub occupancy : Float

  abbrev property_occupancy : Dict Float
  property_occupancy =
      ("prop-001", hundredths 82)
      ∷ ("prop-002", hundredths 74)
      ∷ ("prop-003", hundredths 41)
      ∷ ("prop-004", hundredths 68)
      ∷ ("prop-005", hundredths 59)
      ∷ []

  abbrev occupancy_of : String → Float
  occupancy_of pid = elim (get pid property_occupancy) [ none ↦ p.of_ℕ 0 | some x ↦ x ]

  abbrev average : List String → Float
  average pids = p.div (p.of_ℕ (revenue_sum pids)) (p.of_ℕ (at_least_one (length pids)))

  abbrev is_zero_float : Float → Bool
  is_zero_float x = p.le x (p.of_ℕ 0) && p.le (p.of_ℕ 0) x

  abbrev pct_of : ℕ → Float → Float
  pct_of revenue avg =
      if is_zero_float avg then p.of_ℕ 0 else p.div (p.sub (p.of_ℕ revenue) avg) avg

  unfoldable pub status_of : Float → String
  status_of pct =
      if p.lt (hundredths 15) pct
      then "over"
      else if p.lt pct (p.sub (p.of_ℕ 0) (hundredths 15))
      then "under"
      else "on_track"

  -- the loop of `analyze_performance`
  unfoldable pub standings : Float → List String → Result (List Standing)
  standings avg [] = ok []
  standings avg (pid ∷ rest) =
      let more = standings avg rest in
      let pct = pct_of (revenue_of pid) avg in
      elim (get pid properties) [
        | none ↦ err key_error
        | some prop ↦ elim more [
          | err x ↦ err x
          | ok others ↦ ok (
              record {
                property_id = pid;
                property_name = prop.name;
                revenue_cents = revenue_of pid;
                portfolio_avg_cents = p.trunc avg;
                pct_vs_avg = p.round_to 3 pct;
                status = status_of pct;
                occupancy = occupancy_of pid;
              }
              ∷ others)
        ]
      ]

  pub analyze_performance : Result (List Standing)
  analyze_performance = standings (average property_ids) property_ids
