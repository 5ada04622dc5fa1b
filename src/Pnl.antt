-- ===== src/Pnl.antt =====
-- The monthly profit and loss of a list of transactions (analysis/pnl.py).
pub mod Buckets
pub mod Months
use Prim.Native.String.{slice}
use nemoclaw_smb.Base.{
  ℕ, String, Option, none, some, List, [], ◌∷◌, map, sort, str_eq, str_le, if◌then◌else◌,
}
use nemoclaw_smb.Base.Dict.{Dict, get, put}
use nemoclaw_smb.Platform.{Platform}
use nemoclaw_smb.Ingestion.{Direction, Transaction, expense, income}

-- the keys of a dict, in order
abbrev pub keys {ℓ} : {V : Type ℓ} → Dict V → List String
keys [] = []
keys ((k, _) ∷ d) = k ∷ keys d

module _ ⦃p : Platform⦄ where
  open p use {Float}

  pub record Bucket : Type 0 where
    pub income : Float
    pub expense : Float
    pub net : Float
    pub by_category : Dict Float

  pub record Totals : Type 0 where
    pub income : Float
    pub expense : Float
    pub net : Float

  pub record Report : Type 0 where
    pub monthly : Dict Bucket
    pub totals : Totals
    pub margin_trend : Dict Float

  abbrev pub month_key : String → String
  month_key iso_date = slice iso_date 0 7

  abbrev pub no_bucket : Bucket
  no_bucket = record { income = p.of_ℕ 0; expense = p.of_ℕ 0; net = p.of_ℕ 0; by_category = [] }

  abbrev pub bucket_or : Option Bucket → Bucket
  bucket_or none = no_bucket
  bucket_or (some b) = b

  abbrev pub zero_or : Option Float → Float
  zero_or none = p.of_ℕ 0
  zero_or (some x) = x

  -- `tx.get("category") or "Other"`
  abbrev pub category_or : Option String → String
  category_or none = "Other"
  category_or (some s) = if str_eq s "" then "Other" else s

  abbrev pub category_of : Transaction → String
  category_of t = category_or t.category

  abbrev pub income_with : Direction → Float → Float → Float
  income_with income total amount = p.add total amount
  income_with expense total amount = total

  abbrev pub expense_with : Direction → Float → Float → Float
  expense_with income total amount = total
  expense_with expense total amount = p.add total amount

  -- an expense counts up, income counts down
  abbrev pub charge : Direction → Float → Float
  charge income amount = p.neg amount
  charge expense amount = amount

  -- one round of the loop on the bucket of the month
  unfoldable pub with_transaction : Transaction → Bucket → Bucket
  with_transaction t b =
      let earned = income_with t.direction b.income t.amount in
      let spent = expense_with t.direction b.expense t.amount in
      record {
        income = earned;
        expense = spent;
        net = p.sub earned spent;
        by_category =
            put (category_of t)
              (p.add (zero_or (get (category_of t) b.by_category)) (charge t.direction t.amount))
              b.by_category;
      }

  -- the loop, which skips a transaction without a month
  unfoldable pub bucketed : List Transaction → Dict Bucket → Dict Bucket
  bucketed [] monthly = monthly
  bucketed (t ∷ ts) monthly =
      let month = month_key t.date in
      let next = put month (with_transaction t (bucket_or (get month monthly))) monthly in
      bucketed ts (if str_eq month "" then monthly else next)

  abbrev pub rounded_values : Dict Float → Dict Float
  rounded_values [] = []
  rounded_values ((k, x) ∷ d) = (k, p.round_to 2 x) ∷ rounded_values d

  abbrev pub rounded : Bucket → Bucket
  rounded b = record {
    income = p.round_to 2 b.income;
    expense = p.round_to 2 b.expense;
    net = p.round_to 2 b.net;
    by_category = rounded_values b.by_category;
  }

  -- `result_monthly`, for the months in this order
  unfoldable pub result_for : Dict Bucket → List String → Dict Bucket
  result_for monthly [] = []
  result_for monthly (month ∷ months) =
      (month, rounded (bucket_or (get month monthly))) ∷ result_for monthly months

  abbrev sum_over : (Bucket → Float) → Float → Dict Bucket → Float
  sum_over f total [] = total
  sum_over f total ((_, b) ∷ d) = sum_over f (p.add total (f b)) d

  abbrev pub net_of : String × Bucket → String × Float
  net_of (month, b) = (month, b.net)

  unfoldable pub compute_pnl : List Transaction → Report
  compute_pnl transactions =
      let monthly = bucketed transactions [] in
      let result = result_for monthly (sort str_le (keys monthly)) in
      let total_income = sum_over (λ b. b.income) (p.of_ℕ 0) result in
      let total_expense = sum_over (λ b. b.expense) (p.of_ℕ 0) result in
      record {
        monthly = result;
        totals = record {
          income = p.round_to 2 total_income;
          expense = p.round_to 2 total_expense;
          net = p.round_to 2 (p.sub total_income total_expense);
        };
        margin_trend = map net_of result;
      }
