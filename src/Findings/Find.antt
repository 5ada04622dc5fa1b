-- ===== src/Findings/Find.antt =====
-- Duplicate charges, the greatest recurring costs, and the ranking of all findings
-- (analysis/findings.py).
use nemoclaw_smb.Base.{
  ℕ, ◌&&◌, String, Bool, true, false, Option, none, some, List, [], ◌∷◌, ◌++◌, concat, leb, length,
  ltb, map, sort, str_eq, if◌then◌else◌,
}
use nemoclaw_smb.Base.Dict.{Dict, get}
use nemoclaw_smb.Base.Act.{
  Result, attribute_error, ok, err, lift, pure, type_error, value_error, ◌>>=◌,
}
use nemoclaw_smb.Json.{Value, Items, Fields, arr, cons, field, nil, obj, str}
use nemoclaw_smb.Platform.{Platform}
use nemoclaw_smb.Envelope.{float_of}
use nemoclaw_smb.Ingestion.{Adapter, Transaction}
use nemoclaw_smb.Ingestion.Loader.{characters, same_float}
use nemoclaw_smb.Invoices.Recurring.{Recurring, detect_recurring, larger, one_cent, sum_from}
use nemoclaw_smb.Correlation.{
  Finding, build_correlated_categories, default_corr_threshold, default_correlated_substrings,
  default_ratio_jump_threshold, default_ratio_z_threshold, revenue_by_month,
}
use nemoclaw_smb.Findings.{
  expense_anomaly_findings, expenses_of, raw_of, recurring_jump_findings, vendor_category,
}

module _ ⦃p : Platform⦄ where
  open p use {Float}

  -- The charges of a vendor on a day.
  pub record Day : Type 0 where
    pub vendor : String
    pub date : String
    pub amounts : List Float

  abbrev put_charge : Transaction → List Day → List Day
  put_charge t [] = record { vendor = t.vendor; date = t.date; amounts = t.amount ∷ [] } ∷ []
  put_charge t (day ∷ days) =
      let rest = put_charge t days in
      if str_eq day.vendor t.vendor && str_eq day.date t.date
      then record day { amounts = day.amounts ++ (t.amount ∷ []) } ∷ days
      else day ∷ rest

  unfoldable pub by_day : List Transaction → List Day → List Day
  by_day [] days = days
  by_day (t ∷ ts) days = by_day ts (put_charge t days)

  -- within 5 percent of the mean
  abbrev all_near : Float → List Float → Bool
  all_near mean [] = true
  all_near mean (a ∷ amounts) =
      let rest = all_near mean amounts in
      if p.lt (p.div (p.abs (p.sub a mean)) (larger mean one_cent)) (p.div (p.of_ℕ 5) (p.of_ℕ 100))
      then rest
      else false

  -- `"...".format(mean)` is applied to the whole text, names included.
  unfoldable pub duplicate_finding : List Transaction → Day → Result Finding
  duplicate_finding expenses day =
      let mean = p.mean day.amounts in
      let extra = p.sub (sum_from (p.of_ℕ 0) day.amounts) mean in
      let cat = vendor_category day.vendor expenses in
      let count = p.show_int (length day.amounts) in
      let text = concat (
        "Review " ∷ cat ∷ ": " ∷ count ∷ " same-day charges to " ∷ day.vendor
        ∷ " each ~${:.2f} — confirm no duplicate billing." ∷ []) in
      elim (p.format text mean) [
        | none ↦ err value_error
        | some action ↦ ok (record {
          title = concat ("Possible duplicate charge: " ∷ day.vendor ∷ []);
          category = cat;
          monthly_impact = p.round_to 2 extra;
          annual_impact = p.round_to 2 (p.mul extra (p.of_ℕ 12));
          confidence = "medium";
          why = concat (
              count
              ∷ " charges to "
              ∷ day.vendor
              ∷ " on "
              ∷ day.date
              ∷ " each ~$"
              ∷ p.show_fixed 2 mean
              ∷ " — review for duplicate billing."
              ∷ []);
          action = action;
        })
      ]

  unfoldable pub duplicates_in : List Transaction → List Day → Result (List Finding)
  duplicates_in expenses [] = ok []
  duplicates_in expenses (day ∷ days) =
      let rest = duplicates_in expenses days in
      let found : Result (List Finding) = elim (duplicate_finding expenses day) [
        | err x ↦ err x
        | ok f ↦ elim rest [ err x ↦ err x | ok more ↦ ok (f ∷ more) ]
      ] in
      if ltb (length day.amounts) 2
      then rest
      else if all_near (p.mean day.amounts) day.amounts
      then found
      else rest

  -- `_duplicate_charge_findings`
  unfoldable pub duplicate_charge_findings : List Transaction → Result (List Finding)
  duplicate_charge_findings transactions =
      let expenses = expenses_of transactions in duplicates_in expenses (by_day expenses [])

  abbrev top_finding : List Transaction → Recurring → Finding
  top_finding expenses r =
      let annual = p.round_to 2 (p.mul r.monthly_cost (p.of_ℕ 12)) in
      let cat = vendor_category r.vendor expenses in
      record {
        title = concat ("Top recurring: " ∷ r.vendor ∷ []);
        category = cat;
        monthly_impact = p.round_to 2 r.monthly_cost;
        annual_impact = annual;
        confidence = "low";
        why = concat (
            r.vendor
            ∷ " is a "
            ∷ r.frequency
            ∷ " charge averaging $"
            ∷ p.show_fixed 2 r.amount
            ∷ " ("
            ∷ p.show_int r.occurrences
            ∷ " occurrences, $"
            ∷ p.show_fixed 0 annual
            ∷ "/yr annualized)."
            ∷ []);
        action = concat (
            "Review "
            ∷ cat
            ∷ ": "
            ∷ r.vendor
            ∷ " costs $"
            ∷ p.show_fixed 0 annual
            ∷ "/yr — confirm still needed or renegotiate."
            ∷ []);
      }

  abbrev first_three : List Recurring → List Recurring
  first_three (a ∷ b ∷ c ∷ rest) = a ∷ b ∷ c ∷ []
  first_three few = few

  -- `_top_recurring_findings`
  unfoldable pub top_recurring_findings : List Transaction → Adapter (List Finding)
  top_recurring_findings transactions = do
    let expenses = expenses_of transactions
    recurring ← detect_recurring (map raw_of expenses)
    pure (map (top_finding expenses) (first_three recurring))

  -- `float(thresholds.get(key, default))`
  abbrev threshold : String → Float → Dict (Value Float) → Result Float
  threshold key default thresholds = elim (get key thresholds) [
    | none ↦ ok default
    | some v ↦ float_of v
  ]

  abbrev lowered : Items Float → Result (List String)
  lowered nil = ok []
  lowered (cons (str s) items) =
      let later = lowered items in elim later [ err x ↦ err x | ok more ↦ ok (p.lower s ∷ more) ]
  lowered (cons _ items) = err attribute_error

  abbrev lowered_keys : Fields Float → List String
  lowered_keys Fields.end = []
  lowered_keys (field k v fields) = p.lower k ∷ lowered_keys fields

  -- the names of `revenue_correlated`; a text gives its characters
  abbrev extra_correlated : Option (Value Float) → Result (List String)
  extra_correlated none = ok []
  extra_correlated (some (arr items)) = lowered items
  extra_correlated (some (str s)) = ok (map p.lower (characters s))
  extra_correlated (some (obj fields)) = ok (lowered_keys fields)
  extra_correlated (some _) = err type_error

  abbrev confidence_rank : String → ℕ
  confidence_rank s = if str_eq s "high" then 0 else if str_eq s "medium" then 1 else 2

  -- the order of `(-annual_impact, rank)`
  abbrev pub by_impact : Finding → Finding → Bool
  by_impact f g =
      let a = p.neg f.annual_impact in
      let b = p.neg g.annual_impact in
      if same_float a b
      then leb (confidence_rank f.confidence) (confidence_rank g.confidence)
      else p.lt a b

  -- the four kinds, from thresholds that are read
  unfoldable pub findings_with :
      List Transaction → Float → Float → Float → Float → List String → Adapter (List Finding)
  findings_with transactions alert_pct corr_threshold z_min jump_min extra = do
    let expenses = expenses_of transactions
    let revenue = revenue_by_month transactions
    let correlated =
        build_correlated_categories expenses revenue (default_correlated_substrings ++ extra)
          corr_threshold
    let spikes = expense_anomaly_findings transactions correlated revenue z_min jump_min
    jumps ← recurring_jump_findings transactions alert_pct
    duplicates ← lift (duplicate_charge_findings transactions)
    top ← top_recurring_findings transactions
    pure (sort by_impact (spikes ++ (jumps ++ (duplicates ++ top))))

  unfoldable pub find : List Transaction → Dict (Value Float) → Adapter (List Finding)
  find transactions thresholds = do
    alert_pct ← lift (threshold "alert_delta_pct" (p.of_ℕ 20) thresholds)
    corr_threshold ← lift (threshold "corr_threshold" default_corr_threshold thresholds)
    z_min ← lift (threshold "ratio_z_threshold" default_ratio_z_threshold thresholds)
    jump_min ← lift (threshold "ratio_jump_threshold" default_ratio_jump_threshold thresholds)
    extra ← lift (extra_correlated (get "revenue_correlated" thresholds))
    findings_with transactions alert_pct corr_threshold z_min jump_min extra
