-- ===== src/Pricing.antt =====
-- The pricing skill (skills/dynamic_pricing_skill.py): a nightly rate from occupancy, season, events,
-- the day and the rates of comparable listings.
pub mod Median
pub mod Anchor
use nemoclaw_smb.Rates.{
  oceanside_rates, local_event_uplifts, season_multipliers, season_multiplier, occupancy_bands,
  band_of, occupancy_multiplier, larger, best_uplift, event_multiplier, at, not_after, midpoint,
  middle, comp_anchor, blend_rate, confidence_of, score, graded,
}
use nemoclaw_smb.Base.{
  ℕ, ◌+◌, ◌-◌, ◌/◌, ◌%◌, String, Bool, true, false, not, Option, none, some, List, [], ◌∷◌, concat,
  ltb, leb, length, map, member, nth, sort, str_eq, if◌then◌else◌, ◌==◌,
}
use nemoclaw_smb.Base.Dict.{Dict, get}
use nemoclaw_smb.Base.Act.{Act, Result, ok, err, index_error, pure, lift, ◌>>=◌}
use nemoclaw_smb.Platform.{Platform}
use nemoclaw_smb.MockLedger.{hundredths}
use nemoclaw_smb.Models.{Provenance, reasoned, route_for}
use nemoclaw_smb.World.{World}

abbrev weekend_days : List String
weekend_days = "fri" ∷ "sat" ∷ "sun" ∷ []

-- a list, or another where it is empty
abbrev pub or_list : {A : Type 0} → List A → List A → List A
or_list [] other = other
or_list (x ∷ xs) other = x ∷ xs

abbrev join_texts : List String → String
join_texts [] = ""
join_texts (s ∷ []) = s
join_texts (s ∷ t ∷ rest) = concat (s ∷ ", " ∷ join_texts (t ∷ rest) ∷ [])

module _ ⦃p : Platform⦄ where
  open p use {Float}

  pub record PricingRequest : Type 0 where
    pub property_id : String
    pub current_rate : Float
    pub occupancy_rate : Float
    pub local_events : List String
    pub comp_set_rates : List Float
    pub season : String
    pub day_of_week : String

  pub record PricingRecommendation : Type 0 where
    pub recommended_rate : Float
    pub confidence : String
    pub reasoning : String
    pub suggested_title_tweak : String
    pub valid_for_hours : ℕ
    pub reasoning_provenance : Provenance Float

  abbrev is_weekend : String → Bool
  is_weekend day = member day weekend_days

  abbrev comp_note : List Float → Float → String
  comp_note [] anchor = "no comp-set provided; signal-only pricing"
  comp_note (x ∷ xs) anchor = concat (
      "comp-set anchor $"
      ∷ p.show_fixed 0 anchor
      ∷ " from "
      ∷ p.show_int (length (x ∷ xs))
      ∷ " comps"
      ∷ [])

  abbrev events_note : List String → String
  events_note [] = "no local events"
  events_note (e ∷ es) = join_texts (e ∷ es)

  -- `_build_reasoning`, on the anchor of the request's own rates
  pub build_reasoning : PricingRequest → Float → Float → Float → String
  build_reasoning req anchor raw_rate final_rate = concat (
      "Base $"
      ∷ p.show_fixed 0 req.current_rate
      ∷ ". Season="
      ∷ req.season
      ∷ " (x"
      ∷ p.show_fixed 2 (season_multiplier req.season)
      ∷ "). Occupancy="
      ∷ p.show_percent req.occupancy_rate
      ∷ " (x"
      ∷ p.show_fixed 2 (occupancy_multiplier req.occupancy_rate)
      ∷ "). Events: "
      ∷ events_note req.local_events
      ∷ " (x"
      ∷ p.show_fixed 2 (event_multiplier req.local_events)
      ∷ "). "
      ∷ (if is_weekend req.day_of_week then "weekend uplift applied" else "weekday base")
      ∷ ". Signal rate $"
      ∷ p.show_fixed 0 raw_rate
      ∷ ". "
      ∷ comp_note req.comp_set_rates anchor
      ∷ ". Recommended $"
      ∷ p.show_fixed 0 final_rate
      ∷ "."
      ∷ [])

  abbrev plain_title : PricingRequest → String → String
  plain_title req price =
      if str_eq req.season "peak"
      then concat ("Peak season available: $" ∷ price ∷ "/night" ∷ [])
      else if p.le (hundredths 80) req.occupancy_rate
      then concat ("Limited availability at $" ∷ price ∷ "/night" ∷ [])
      else concat ("Great value at $" ∷ price ∷ "/night this " ∷ p.title req.day_of_week ∷ [])

  pub title_tweak : PricingRequest → Float → String
  title_tweak req final_rate =
      let price = p.show_fixed 0 final_rate in
      elim req.local_events [
        | [] ↦ plain_title req price
        | event ∷ _ ↦ concat ("Perfect for " ∷ event ∷ ". Book now at $" ∷ price ∷ "/night" ∷ [])
      ]

  pub pricing_prompt : PricingRequest → Float → String
  pricing_prompt req final_rate = concat (
      "You are a professional STR revenue manager. Property "
      ∷ req.property_id
      ∷ ". Current rate $"
      ∷ p.show_float req.current_rate
      ∷ ". Occupancy "
      ∷ p.show_percent req.occupancy_rate
      ∷ ", season="
      ∷ req.season
      ∷ ", day="
      ∷ req.day_of_week
      ∷ ", events="
      ∷ p.show_texts req.local_events
      ∷ ". Comp rates: "
      ∷ p.show_floats req.comp_set_rates
      ∷ ". Recommended rate: $"
      ∷ p.show_float final_rate
      ∷ ". Explain in 2 sentences why this rate is correct."
      ∷ [])

  -- `_demo_reasoning_trace`
  unfoldable pub demo_reasoning_trace :
      PricingRequest → Float → Bool → Act World (String × Provenance Float)
  demo_reasoning_trace req final_rate live = lift (route_for "dynamic_pricing") >>= λ model.
      lift (comp_anchor req.comp_set_rates) >>= λ anchor. λ w.
        let cached = concat (
          "[" ∷ model ∷ "/demo-cached] " ∷ build_reasoning req anchor final_rate final_rate ∷ []) in
        let (made, w') =
          reasoned "dynamic pricing" "agent" model live (pricing_prompt req final_rate) cached w in
        (ok made, w')

  abbrev pub comps_of : PricingRequest → List Float
  comps_of req = or_list req.comp_set_rates oceanside_rates

  -- the rate from the signals alone
  abbrev pub raw_rate : PricingRequest → Float
  raw_rate req =
      p.mul
        (p.mul
          (p.mul (p.mul req.current_rate (season_multiplier req.season))
            (occupancy_multiplier req.occupancy_rate))
          (event_multiplier req.local_events))
        (if is_weekend req.day_of_week then hundredths 112 else p.of_ℕ 1)

  abbrev pub recommendation :
      PricingRequest → Float → String × Provenance Float → PricingRecommendation
  recommendation req final_rate (reasoning, provenance) = record {
    recommended_rate = final_rate;
    confidence = confidence_of req.occupancy_rate (length req.local_events) (length (comps_of req));
    reasoning = reasoning;
    suggested_title_tweak = title_tweak req final_rate;
    valid_for_hours = 12;
    reasoning_provenance = provenance;
  }

  unfoldable pub recommend_price : PricingRequest → Bool → Act World PricingRecommendation
  recommend_price req live = lift (comp_anchor (comps_of req)) >>= λ anchor.
      demo_reasoning_trace req (blend_rate (raw_rate req) anchor) live >>= λ traced.
      pure (recommendation req (blend_rate (raw_rate req) anchor) traced)
