-- ===== src/Pricing/Anchor.antt =====
-- That a price is always found, and what it is made of (skills/dynamic_pricing_skill.py).
use mathlib.Core.Path.{subst}
use nemoclaw_smb.Base.{
  sym, ℕ, ◌≤◌, ◌≡◌, ◌↔◌, ◌⊎◌, inl, inr, false, refl, String, Bool, true, List, [], ◌∷◌, arith,
  concat, All, ltb, leb, str_eq_iff, Bool-cases,
}
use nemoclaw_smb.Base.Act.{ok}
use nemoclaw_smb.Platform.{Platform}
use nemoclaw_smb.World.{World}
use nemoclaw_smb.Base.Dict.{get}
use nemoclaw_smb.Models.{Provenance, model_routing, nemotron_ultra, reasoned, route_for}
use nemoclaw_smb.Models.Reasoned.{reasoned_audit}
use nemoclaw_smb.Pricing.{
  PricingRequest, PricingRecommendation, or_list, build_reasoning, pricing_prompt, comps_of,
  demo_reasoning_trace, raw_rate, recommend_price, recommendation,
}
use nemoclaw_smb.MockLedger.{hundredths}
use nemoclaw_smb.Rates.{oceanside_rates, blend_rate, comp_anchor, confidence_of, graded, score}
use nemoclaw_smb.Pricing.Median.{
  IsMedian, IsNumber, IsOrdered, comp_anchor-IsMedian, comp_anchor_found,
}

module _ ⦃p : Platform⦄ where
  demo_reasoning_trace_lem :
      (req : PricingRequest) (rate : p.Float) (live : Bool) (w : World)
      → (traced : String × Provenance p.Float) × (w' : World) × (demo_reasoning_trace req rate live
            w
          ≡ (ok traced, w'))
        × (w'.audit ≡ w.audit)
  unfolding demo_reasoning_trace route_for get model_routing
  demo_reasoning_trace_lem req rate live w =
      let (anchor, found) = comp_anchor_found req.comp_set_rates in
      let cached =
        concat
          ("[" ∷ nemotron_ultra ∷ "/demo-cached] " ∷ build_reasoning req anchor rate rate ∷ []) in
      let step =
        reasoned "dynamic pricing" "agent" nemotron_ultra live (pricing_prompt req rate) cached w in
      (
        step.0,
        step.1,
        ground arith,
        reasoned_audit "dynamic pricing" "agent" nemotron_ultra live (pricing_prompt req rate)
            cached w,
      )

  -- A price is found whatever the rates are.
  pub recommend_price_found :
      (req : PricingRequest) (live : Bool) (w : World)
      → (rec : PricingRecommendation) × (w' : World) × (anchor : p.Float) × (recommend_price req
            live w
          ≡ (ok rec, w'))
        × (comp_anchor (comps_of req) ≡ ok anchor)
        × (rec.recommended_rate ≡ blend_rate (raw_rate req) anchor)
        × (w'.audit ≡ w.audit)
  unfolding recommend_price
  recommend_price_found req live w =
      let (anchor, found) = comp_anchor_found (comps_of req) in
      let rate = blend_rate (raw_rate req) anchor in
      let (traced, w', ran, quiet) = demo_reasoning_trace_lem req rate live w in
      (recommendation req rate traced, w', anchor, ground arith, found, refl, quiet)

  -- The rates that a price is anchored at: those of the request, or the three Oceanside rates.
  abbrev pub IsAtHand : List p.Float → List p.Float → Type 0
  IsAtHand [] comps = comps ≡ p.of_ℕ 195 ∷ p.of_ℕ 230 ∷ p.of_ℕ 265 ∷ []
  IsAtHand (x ∷ xs) comps = comps ≡ x ∷ xs

  -- 60 parts of the signal rate and 40 of the anchor, or the signal rate where the anchor is not above 0.
  abbrev pub IsBlended : p.Float → p.Float → p.Float → Type 0
  IsBlended signal anchor rate =
      ((p.lt (p.of_ℕ 0) anchor ≡ true)
        × (rate
            ≡ p.round_to 2 (p.add (p.mul (hundredths 60) signal) (p.mul (hundredths 40) anchor))))
      ⊎ ((p.lt (p.of_ℕ 0) anchor ≡ false) × (rate ≡ p.round_to 2 signal))

  blend_rate-IsBlended :
      (signal anchor : p.Float) → IsBlended signal anchor (blend_rate signal anchor)
  unfolding blend_rate
  blend_rate-IsBlended signal anchor = elim (Bool-cases (p.lt (p.of_ℕ 0) anchor)) [
    | inl above ↦ inl (above, ground arith)
    | inr none_there ↦ inr (none_there, ground arith)
  ]

  -- What a price is made of: the rates at hand, their median, and the signal rate.
  abbrev pub IsPriced : PricingRequest → p.Float → Type 0
  IsPriced req rate =
      (comps : List p.Float) × (anchor : p.Float) × IsAtHand req.comp_set_rates comps
      × IsMedian comps anchor
      × IsBlended (raw_rate req) anchor rate

  comps_of-IsAtHand :
      (req : PricingRequest)
      → All IsNumber (comps_of req)
      → (x : p.Float) × (xs : List p.Float) × (comps_of req ≡ x ∷ xs)
        × IsAtHand req.comp_set_rates (x ∷ xs)
        × All IsNumber (x ∷ xs)
  comps_of-IsAtHand req numbers = at_hand req.comp_set_rates numbers
    where
      at_hand :
          (rates : List p.Float)
          → All IsNumber (or_list rates oceanside_rates)
          → (x : p.Float) × (xs : List p.Float) × (or_list rates oceanside_rates ≡ x ∷ xs)
            × IsAtHand rates (x ∷ xs)
            × All IsNumber (x ∷ xs)
      at_hand [] all = (p.of_ℕ 195, p.of_ℕ 230 ∷ p.of_ℕ 265 ∷ [], refl, refl, all)
      at_hand (x ∷ xs) all = (x, xs, refl, refl, all)

  -- Where the order of floats is as documented and the rates at hand are numbers: for every request a
  -- price is found, live or not. It blends the signal rate of the request and the median of the rates at
  -- hand, 60 to 40, where that is above 0, and otherwise is the signal rate, rounded to cents. The rates
  -- at hand are those of the request, and the three Oceanside rates where it has none. The audit log is
  -- left as it is.
  pub recommend_price_total :
      (order : IsOrdered) (req : PricingRequest) (live : Bool) (w : World)
      → All IsNumber (comps_of req)
      → (rec : PricingRecommendation) × (w' : World) × (recommend_price req live w ≡ (ok rec, w'))
        × IsPriced req rec.recommended_rate
        × (w'.audit ≡ w.audit)
  recommend_price_total order req live w numbers =
      let (x, xs, same, at_hand, all) = comps_of-IsAtHand req numbers in
      let (median, is_found, is_median) = comp_anchor-IsMedian order x xs all in
      let (rec, w', anchor, ran, found, priced, quiet) = recommend_price_found req live w in
      let one : anchor ≡ median = ground arith in
      let blended =
        subst (IsBlended (raw_rate req) anchor) (sym priced)
          (blend_rate-IsBlended (raw_rate req) anchor) in
      (
        rec,
        w',
        ran,
        (x ∷ xs, anchor, at_hand, subst (IsMedian (x ∷ xs)) (sym one) is_median, blended),
        quiet,
      )

  graded_high : (n : ℕ) → (graded n ≡ "high") ↔ (4 ≤ n)
  graded_high n = elim (Bool-cases (leb 4 n)) [
    | inl e ↦ ground arith
    | inr e ↦ ground (arith, str_eq_iff "medium" "high", str_eq_iff "low" "high")
  ]

  score_full :
      (occupied : Bool) (events comps : ℕ)
      → (4 ≤ score occupied events comps) ↔ ((occupied ≡ true) × (1 ≤ events) × (2 ≤ comps))
  score_full occupied events comps = elim (Bool-cases (leb 2 comps)) [
    | inl two ↦ elim (Bool-cases (ltb 0 events)) [
      | inl some_event ↦ grind arith
      | inr none_there ↦ grind arith
    ]
    | inr few ↦ grind arith
  ]

  -- The confidence is high exactly where two comparable rates, an occupancy over zero and an event are
  -- there.
  pub confidence_high :
      (occupancy : p.Float) (events comps : ℕ)
      → (confidence_of occupancy events comps ≡ "high")
        ↔ ((p.lt (p.of_ℕ 0) occupancy ≡ true) × (1 ≤ events) × (2 ≤ comps))
  unfolding confidence_of
  confidence_high occupancy events comps =
      let occupied = p.lt (p.of_ℕ 0) occupancy in
      ground (arith, graded_high (score occupied events comps), score_full occupied events comps)
