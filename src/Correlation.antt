-- ===== src/Correlation.antt =====
-- Costs that follow the revenue (analysis/revenue_correlation.py).
use Prim.Native.String.{slice}
use nemoclaw_smb.Base.{
  ◌&&◌, ◌||◌, String, Bool, true, false, Option, none, some, List, [], ◌∷◌, ◌++◌, concat, has_part,
  length, ltb, map, sort, str_eq, str_le, if◌then◌else◌,
}
use nemoclaw_smb.Base.Dict.{Dict, contains, get, put}
use nemoclaw_smb.Platform.{Platform}
use nemoclaw_smb.Ingestion.{Direction, Transaction, expense, income}
use nemoclaw_smb.Ingestion.Loader.{same_float}
use nemoclaw_smb.Pnl.{keys}

abbrev pub default_correlated_substrings : List String
default_correlated_substrings =
    "mgmt" ∷ "management" ∷ "platform" ∷ "booking" ∷ "host fee" ∷ "commission" ∷ "cleaning" ∷ []

-- `is_config_correlated`, on a category in lower case
abbrev any_part : String → List String → Bool
any_part category [] = false
any_part category (s ∷ substrings) =
    let rest = any_part category substrings in if has_part s category then true else rest

module _ ⦃p : Platform⦄ where
  open p use {Float}

  -- An advisory finding (analysis/findings.py).
  pub record Finding : Type 0 where
    pub title : String
    pub category : String
    pub monthly_impact : Float
    pub annual_impact : Float
    pub confidence : String
    pub why : String
    pub action : String

  -- 0.7, 2.0 and 0.30
  abbrev pub default_corr_threshold : Float
  default_corr_threshold = p.div (p.of_ℕ 7) (p.of_ℕ 10)

  abbrev pub default_ratio_z_threshold : Float
  default_ratio_z_threshold = p.of_ℕ 2

  abbrev pub default_ratio_jump_threshold : Float
  default_ratio_jump_threshold = p.div (p.of_ℕ 30) (p.of_ℕ 100)

  abbrev products : List Float → List Float → Float → Float → Float → Float
  products [] ys mx my total = total
  products (x ∷ xs) [] mx my total = total
  products (x ∷ xs) (y ∷ ys) mx my total =
      products xs ys mx my (p.add total (p.mul (p.sub x mx) (p.sub y my)))

  unfoldable pub pearson_r : List Float → List Float → Float
  pearson_r xs ys =
      let n = length xs in
      let cov = products xs ys (p.mean xs) (p.mean ys) (p.of_ℕ 0) in
      let sdx = p.pstdev xs in
      let sdy = p.pstdev ys in
      if ltb n 2
      then p.of_ℕ 0
      else if same_float sdx (p.of_ℕ 0) || same_float sdy (p.of_ℕ 0)
      then p.of_ℕ 0
      else p.div cov (p.mul (p.mul (p.of_ℕ n) sdx) sdy)

  unfoldable pub is_config_correlated : String → List String → Bool
  is_config_correlated category substrings = any_part (p.lower category) substrings

  abbrev pub amount_in : String → Dict Float → Float
  amount_in month monthly = elim (get month monthly) [ none ↦ p.of_ℕ 0 | some x ↦ x ]

  -- `monthly[month] += amount`, where there is a month
  abbrev with_amount : Transaction → Dict Float → Dict Float
  with_amount t monthly =
      let month = slice t.date 0 7 in
      if str_eq month ""
      then monthly
      else put month (p.add (amount_in month monthly) t.amount) monthly

  abbrev is_income : Direction → Bool
  is_income income = true
  is_income expense = false

  abbrev revenue_from : List Transaction → Dict Float → Dict Float
  revenue_from [] monthly = monthly
  revenue_from (t ∷ ts) monthly =
      revenue_from ts (if is_income t.direction then with_amount t monthly else monthly)

  unfoldable pub revenue_by_month : List Transaction → Dict Float
  revenue_by_month transactions = revenue_from transactions []

  abbrev has_category : String → Option String → Bool
  has_category category none = false
  has_category category (some c) = str_eq c category

  abbrev costs_from : String → List Transaction → Dict Float → Dict Float
  costs_from category [] monthly = monthly
  costs_from category (t ∷ ts) monthly =
      costs_from category ts
        (if has_category category t.category then with_amount t monthly else monthly)

  unfoldable pub category_monthly_costs : List Transaction → String → Dict Float
  category_monthly_costs expenses category = costs_from category expenses []

  -- the months of both, for which a test holds
  abbrev shared_in : (String → Bool) → Dict Float → List String → List String
  shared_in test revenue [] = []
  shared_in test revenue (m ∷ ms) =
      let rest = shared_in test revenue ms in
      if contains m revenue && test m then m ∷ rest else rest

  abbrev shared_months : (String → Bool) → Dict Float → Dict Float → List String
  shared_months test costs revenue = sort str_le (shared_in test revenue (keys costs))

  -- `_is_auto_correlated`
  unfoldable pub is_auto_correlated : String → List Transaction → Dict Float → Float → Bool
  is_auto_correlated category expenses revenue corr_threshold =
      let costs = category_monthly_costs expenses category in
      let shared = shared_months (λ m. true) costs revenue in
      if ltb (length shared) 4
      then false
      else p.le corr_threshold
          (pearson_r (map (λ m. amount_in m costs) shared) (map (λ m. amount_in m revenue) shared))

  abbrev categories_of : List Transaction → List String
  categories_of [] = []
  categories_of (t ∷ ts) =
      let rest = categories_of ts in
      elim t.category [ none ↦ rest | some c ↦ if str_eq c "" then rest else c ∷ rest ]

  abbrev correlated_in :
      List String → List Transaction → Dict Float → List String → Float → List String
  correlated_in [] expenses revenue substrings corr_threshold = []
  correlated_in (c ∷ cs) expenses revenue substrings corr_threshold =
      let rest = correlated_in cs expenses revenue substrings corr_threshold in
      if is_config_correlated c substrings || is_auto_correlated c expenses revenue corr_threshold
      then c ∷ rest
      else rest

  -- the set of them, as a list
  unfoldable pub build_correlated_categories :
      List Transaction → Dict Float → List String → Float → List String
  build_correlated_categories expenses revenue substrings corr_threshold = p.list_of_set (
      correlated_in (p.list_of_set (categories_of expenses)) expenses revenue substrings
        corr_threshold)

  abbrev ratio_in : Dict Float → Dict Float → String → String × Float
  ratio_in costs revenue month = (month, p.div (amount_in month costs) (amount_in month revenue))

  abbrev positive_or_zero : Float → Float → Float
  positive_or_zero below x = if p.lt (p.of_ℕ 0) below then p.div x below else p.of_ℕ 0

  abbrev ratio_finding : String → String → Float → Float → Float → Float → Float → Finding
  ratio_finding category month ratio mean z rel_jump delta_cost =
      let prior_pct = p.show_float (p.round_to 1 (p.mul mean (p.of_ℕ 100))) in
      let curr_pct = p.show_float (p.round_to 1 (p.mul ratio (p.of_ℕ 100))) in
      record {
        title = concat ("Expense spike: " ∷ category ∷ []);
        category = category;
        monthly_impact = p.round_to 2 delta_cost;
        annual_impact = p.round_to 2 (p.mul delta_cost (p.of_ℕ 12));
        confidence = if p.le (p.of_ℕ 3) z then "high" else "medium";
        why = concat (
            category
            ∷ " cost/revenue ratio rose to "
            ∷ p.show_percents 1 ratio
            ∷ " in "
            ∷ month
            ∷ " vs prior avg "
            ∷ p.show_percents 1 mean
            ∷ " (+"
            ∷ p.show_percent rel_jump
            ∷ " ratio increase; z="
            ∷ p.show_fixed 2 z
            ∷ ")"
            ∷ []);
        action = concat (
            "Renegotiate " ∷ category ∷ ": now " ∷ curr_pct ∷ "% of revenue, up from " ∷ prior_pct
            ∷ "%." ∷ []);
      }

  -- the loop over the ratios, on those before the one at hand
  unfoldable pub ratio_findings_from :
      String → Dict Float → Dict Float → Float → Float → List Float → Dict Float → List Finding
  ratio_findings_from category costs revenue z_min jump_min history [] = []
  ratio_findings_from category costs revenue z_min jump_min history ((month, ratio) ∷ ratios) =
      let rest =
        ratio_findings_from category costs revenue z_min jump_min (history ++ (ratio ∷ []))
          ratios in
      let mean = p.mean history in
      let z = positive_or_zero (p.pstdev history) (p.sub ratio mean) in
      let rel_jump = positive_or_zero mean (p.sub ratio mean) in
      let delta_cost = p.sub (amount_in month costs) (p.mul mean (amount_in month revenue)) in
      if ltb (length history) 2
      then rest
      else if p.le z_min z || p.le jump_min rel_jump
      then ratio_finding category month ratio mean z rel_jump delta_cost ∷ rest
      else rest

  unfoldable pub ratio_findings_for_category :
      String → List Transaction → Dict Float → Float → Float → List Finding
  ratio_findings_for_category category expenses revenue z_min jump_min =
      let costs = category_monthly_costs expenses category in
      let shared = shared_months (λ m. p.lt (p.of_ℕ 0) (amount_in m revenue)) costs revenue in
      ratio_findings_from category costs revenue z_min jump_min []
        (map (ratio_in costs revenue) shared)
