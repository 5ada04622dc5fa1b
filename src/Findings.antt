-- ===== src/Findings.antt =====
-- The advisory findings on a list of transactions (analysis/findings.py).
pub mod Find
use Prim.Native.String.{slice}
use nemoclaw_smb.Base.{
  ℕ, ◌+◌, ◌&&◌, ◌==◌, String, Bool, true, false, not, Option, none, some, List, [], ◌∷◌, ◌++◌,
  concat, length, leb, ltb, map, member, sort, str_eq, str_le, if◌then◌else◌,
}
use nemoclaw_smb.Base.Dict.{Dict, get, put}
use nemoclaw_smb.Base.Act.{Result, ok, err, lift, pure, type_error, ◌>>=◌}
use nemoclaw_smb.Json.{Value, Items, arr, cons, nil, null, real, str}
use nemoclaw_smb.Platform.{Platform}
use nemoclaw_smb.Anomaly
use nemoclaw_smb.Anomaly.{Anomaly, scan}
use nemoclaw_smb.Envelope.{float_of}
use nemoclaw_smb.Ingestion.{Adapter, Direction, Transaction, expense, income}
use nemoclaw_smb.Ingestion.Loader.{same_float}
use nemoclaw_smb.Invoices.{Raw}
use nemoclaw_smb.Invoices.Recurring.{Recurring, detect_recurring, larger, one_cent, sum_from}
use nemoclaw_smb.Pnl.{keys}
use nemoclaw_smb.Correlation.{
  Finding, build_correlated_categories, default_corr_threshold, default_correlated_substrings,
  default_ratio_jump_threshold, default_ratio_z_threshold, ratio_findings_for_category,
  revenue_by_month,
}

module _ ⦃p : Platform⦄ where
  open p use {Float}

  abbrev is_expense : Direction → Bool
  is_expense expense = true
  is_expense income = false

  unfoldable pub expenses_of : List Transaction → List Transaction
  expenses_of [] = []
  expenses_of (t ∷ ts) =
      let rest = expenses_of ts in if is_expense t.direction then t ∷ rest else rest

  -- `t.get("category", "Other") or "Other"`
  abbrev category_or : Option String → String
  category_or none = "Other"
  category_or (some s) = if str_eq s "" then "Other" else s

  abbrev categories_for : String → List Transaction → List String
  categories_for vendor [] = []
  categories_for vendor (t ∷ ts) =
      let rest = categories_for vendor ts in
      if str_eq t.vendor vendor then category_or t.category ∷ rest else rest

  abbrev count_of : String → List String → ℕ
  count_of s [] = 0
  count_of s (t ∷ ts) = let rest = count_of s ts in if str_eq t s then rest + 1 else rest

  -- `max(items, key=items.count)` from the best so far: the first of the greatest
  abbrev most_common : List String → String → List String → String
  most_common all best [] = best
  most_common all best (s ∷ ss) =
      most_common all (if ltb (count_of best all) (count_of s all) then s else best) ss

  -- `_vendor_category`
  unfoldable pub vendor_category : String → List Transaction → String
  vendor_category vendor transactions =
      let cats = categories_for vendor transactions in
      elim (p.list_of_set cats) [ [] ↦ "Other" | c ∷ cs ↦ most_common cats c cs ]

  abbrev show_round : Float → String
  show_round x = p.show_int (p.trunc (p.round_to 0 x))

  -- the finding of an anomaly
  unfoldable pub spike_finding : List Transaction → Anomaly → Finding
  spike_finding expenses a =
      let delta = p.sub a.current_amount a.baseline_mean in
      let cat = vendor_category a.vendor expenses in
      let pct =
        show_round (p.mul (p.div (p.abs delta) (larger a.baseline_mean one_cent)) (p.of_ℕ 100)) in
      record {
        title = concat ("Expense spike: " ∷ a.vendor ∷ []);
        category = cat;
        monthly_impact = p.round_to 2 delta;
        annual_impact = p.round_to 2 (p.mul delta (p.of_ℕ 12));
        confidence = if p.le (p.of_ℕ 3) (p.abs a.z_score) then "high" else "medium";
        why = a.reason;
        action = concat (
            "Review "
            ∷ cat
            ∷ ": "
            ∷ (if p.le (p.of_ℕ 0) delta then "up" else "down")
            ∷ " "
            ∷ pct
            ∷ "% — check for a rate change, error, or one-off."
            ∷ []);
      }

  abbrev text_or_empty : Option String → String
  text_or_empty none = ""
  text_or_empty (some s) = s

  abbrev has_any : Option String → List String → Bool
  has_any none categories = false
  has_any (some c) categories = member c categories

  abbrev invoice_of : Transaction → Anomaly.Invoice
  invoice_of t = record { vendor = t.vendor; amount = t.amount; date = t.date }

  -- the expenses whose category does not follow the revenue
  unfoldable pub fixed_expenses : List String → List Transaction → List Anomaly.Invoice
  fixed_expenses correlated [] = []
  fixed_expenses correlated (t ∷ ts) =
      let rest = fixed_expenses correlated ts in
      if has_any t.category correlated then rest else invoice_of t ∷ rest

  abbrev ratio_findings : List String → List Transaction → Dict Float → Float → Float → List Finding
  ratio_findings [] expenses revenue z_min jump_min = []
  ratio_findings (c ∷ cs) expenses revenue z_min jump_min =
      ratio_findings_for_category c expenses revenue z_min jump_min
      ++ ratio_findings cs expenses revenue z_min jump_min

  -- `_expense_anomaly_findings`
  unfoldable pub expense_anomaly_findings :
      List Transaction → List String → Dict Float → Float → Float → List Finding
  expense_anomaly_findings transactions correlated revenue z_min jump_min =
      let expenses = expenses_of transactions in
      map (spike_finding expenses) (scan (fixed_expenses correlated expenses) (p.of_ℕ 2))
      ++ ratio_findings (p.list_of_set correlated) expenses revenue z_min jump_min

  -- the dict of a transaction, as far as the recurring charges read it
  abbrev pub raw_of : Transaction → Raw
  raw_of t =
      ("date", str t.date)
      ∷ ("vendor", str t.vendor)
      ∷ ("amount", real t.amount)
      ∷ ("category", elim t.category [ none ↦ null | some c ↦ str c ])
      ∷ ("source", str t.source)
      ∷ []

  -- the charges of a vendor in each month
  abbrev charges_by_month : String → List Transaction → Dict (List Float) → Dict (List Float)
  charges_by_month vendor [] groups = groups
  charges_by_month vendor (t ∷ ts) groups =
      let month = slice t.date 0 7 in
      let old : List Float = elim (get month groups) [ none ↦ [] | some l ↦ l ] in
      charges_by_month vendor ts
        (if str_eq t.vendor vendor then put month (old ++ (t.amount ∷ [])) groups else groups)

  abbrev charged_in : String → Dict (List Float) → Float
  charged_in month groups = elim (get month groups) [
    | none ↦ p.of_ℕ 0
    | some l ↦ sum_from (p.of_ℕ 0) l
  ]

  abbrev jump_finding :
      String → List Transaction → Float → String → String → Float → Float → Float → Finding
  jump_finding vendor expenses alert_pct before month prev curr pct =
      let delta = p.sub curr prev in
      let cat = vendor_category vendor expenses in
      record {
        title = concat ("Recurring bill jump: " ∷ vendor ∷ []);
        category = cat;
        monthly_impact = p.round_to 2 delta;
        annual_impact = p.round_to 2 (p.mul delta (p.of_ℕ 12));
        confidence = "medium";
        why = concat (
            vendor
            ∷ " charged $"
            ∷ p.show_fixed 2 curr
            ∷ " in "
            ∷ month
            ∷ " vs $"
            ∷ p.show_fixed 2 prev
            ∷ " in "
            ∷ before
            ∷ " (+"
            ∷ p.show_fixed 0 pct
            ∷ "%, threshold "
            ∷ p.show_fixed 0 alert_pct
            ∷ "%)"
            ∷ []);
        action = concat (
            "Renegotiate or verify "
            ∷ cat
            ∷ " — up "
            ∷ p.show_fixed 0 pct
            ∷ "% month-over-month."
            ∷ []);
      }

  -- each month of a vendor against the one before
  unfoldable pub vendor_jumps :
      String → List Transaction → Float → Dict (List Float) → List String → List Finding
  vendor_jumps vendor expenses alert_pct groups [] = []
  vendor_jumps vendor expenses alert_pct groups (before ∷ []) = []
  vendor_jumps vendor expenses alert_pct groups (before ∷ month ∷ months) =
      let rest = vendor_jumps vendor expenses alert_pct groups (month ∷ months) in
      let prev = charged_in before groups in
      let curr = charged_in month groups in
      let pct = p.mul (p.div (p.sub curr prev) prev) (p.of_ℕ 100) in
      if p.le prev (p.of_ℕ 0)
      then rest
      else if p.lt alert_pct pct
      then jump_finding vendor expenses alert_pct before month prev curr pct ∷ rest
      else rest

  abbrev jumps_for : List String → List Transaction → Float → List Finding
  jumps_for [] expenses alert_pct = []
  jumps_for (vendor ∷ vendors) expenses alert_pct =
      let groups = charges_by_month vendor expenses [] in
      vendor_jumps vendor expenses alert_pct groups (sort str_le (keys groups))
      ++ jumps_for vendors expenses alert_pct

  -- `_recurring_jump_findings`
  unfoldable pub recurring_jump_findings : List Transaction → Float → Adapter (List Finding)
  recurring_jump_findings transactions alert_pct = do
    let expenses = expenses_of transactions
    recurring ← detect_recurring (map raw_of expenses)
    pure
        (jumps_for (p.list_of_set (map (λ (r : Recurring). r.vendor) recurring)) expenses alert_pct)
