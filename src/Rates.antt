-- ===== src/Rates.antt =====
-- The rates of the pricing skill (skills/dynamic_pricing_skill.py): the multipliers, the anchor of the
-- comparable listings, the blend and the confidence.
use nemoclaw_smb.Base.{
  ℕ, ◌+◌, ◌-◌, ◌/◌, ◌%◌, String, Bool, not, none, some, List, [], ◌∷◌, ltb, leb, length, map,
  member, nth, sort, if◌then◌else◌, ◌==◌,
}
use nemoclaw_smb.Base.Dict.{Dict, get}
use nemoclaw_smb.Base.Act.{Result, ok, err, index_error}
use nemoclaw_smb.Platform.{Platform}
use nemoclaw_smb.MockLedger.{hundredths}

-- the points of `_confidence`
abbrev pub score : Bool → ℕ → ℕ → ℕ
score occupied event_count comp_count =
    (if leb 2 comp_count then 2 else if comp_count == 1 then 1 else 0)
    + (if occupied then 1 else 0)
    + (if ltb 0 event_count then 1 else 0)

abbrev pub graded : ℕ → String
graded n = if leb 4 n then "high" else if leb 2 n then "medium" else "low"

module _ ⦃p : Platform⦄ where
  open p use {Float}

  -- the current rates of OCEANSIDE_COMPS
  abbrev pub oceanside_rates : List Float
  oceanside_rates = p.of_ℕ 195 ∷ p.of_ℕ 230 ∷ p.of_ℕ 265 ∷ []

  -- LOCAL_EVENTS, by name and uplift
  abbrev pub local_event_uplifts : List (String × Float)
  local_event_uplifts =
      ("Comic-Con International", hundredths 145)
      ∷ ("Oceanside Farmers Market", hundredths 110)
      ∷ ("Holiday Weekend", hundredths 130)
      ∷ []

  abbrev pub season_multipliers : Dict Float
  season_multipliers =
      ("peak", hundredths 125) ∷ ("shoulder", hundredths 105) ∷ ("off", hundredths 85) ∷ []

  -- `_SEASON_MULTIPLIERS.get(season, 1.0)`
  abbrev pub season_multiplier : String → Float
  season_multiplier season = elim (get season season_multipliers) [ none ↦ p.of_ℕ 1 | some x ↦ x ]

  abbrev pub occupancy_bands : List (Float × Float)
  occupancy_bands =
      (hundredths 85, hundredths 120)
      ∷ (hundredths 70, hundredths 108)
      ∷ (hundredths 50, hundredths 100)
      ∷ (hundredths 30, hundredths 90)
      ∷ (hundredths 0, hundredths 80)
      ∷ []

  abbrev pub band_of : Float → List (Float × Float) → Float
  band_of rate [] = hundredths 80
  band_of rate ((threshold, mult) ∷ rest) = if p.le threshold rate then mult else band_of rate rest

  pub occupancy_multiplier : Float → Float
  occupancy_multiplier rate = band_of rate occupancy_bands

  -- Python's `max(x, y)`
  abbrev pub larger : Float → Float → Float
  larger x y = if p.lt x y then y else x

  -- the loop of `_event_multiplier`
  abbrev pub best_uplift : List String → Float → List (String × Float) → Float
  best_uplift names best [] = best
  best_uplift names best ((name, uplift) ∷ rest) =
      best_uplift names (if member (p.upper name) names then larger best uplift else best) rest

  pub event_multiplier : List String → Float
  event_multiplier event_names =
      best_uplift (map p.upper event_names) (p.of_ℕ 1) local_event_uplifts

  -- `list[n]`
  abbrev pub at : List Float → ℕ → Result Float
  at xs n = elim (nth xs n) [ none ↦ err index_error | some x ↦ ok x ]

  abbrev pub not_after : Float → Float → Bool
  not_after x y = not (p.lt y x)

  abbrev pub midpoint : Float → Float → Float
  midpoint x y = p.div (p.add x y) (p.of_ℕ 2)

  -- The middle of a sorted list.
  unfoldable pub middle : List Float → Result Float
  middle sorted =
      let mid = length sorted / 2 in
      if length sorted % 2 == 0
      then elim (at sorted (mid - 1)) [
        | err x ↦ err x
        | ok a ↦ elim (at sorted mid) [ err x ↦ err x | ok b ↦ ok (midpoint a b) ]
      ]
      else at sorted mid

  -- `_comp_anchor`, the median of the comparable rates
  unfoldable pub comp_anchor : List Float → Result Float
  comp_anchor [] = ok (p.of_ℕ 0)
  comp_anchor (x ∷ xs) = middle (sort not_after (x ∷ xs))

  unfoldable pub blend_rate : Float → Float → Float
  blend_rate signal_rate anchor =
      if p.lt (p.of_ℕ 0) anchor
      then p.round_to 2 (p.add (p.mul (hundredths 60) signal_rate) (p.mul (hundredths 40) anchor))
      else p.round_to 2 signal_rate

  unfoldable pub confidence_of : Float → ℕ → ℕ → String
  confidence_of occupancy event_count comp_count =
      graded (score (p.lt (p.of_ℕ 0) occupancy) event_count comp_count)
