-- ===== src/Pnl/Buckets.antt =====
-- The bucket of a month against plain sums over the transactions of that month.
use nemoclaw_smb.Base.{
  ◌≡◌, refl, ◌∙◌, String, Option, some, List, [], ◌∷◌, arith, str_eq, str_eq_iff, if◌then◌else◌,
}
use nemoclaw_smb.Base.Dict.{get, get-put}
use nemoclaw_smb.Platform.{Platform}
use nemoclaw_smb.Ingestion.{Transaction}
use nemoclaw_smb.Pnl.{
  Bucket, bucket_or, category_of, charge, expense_with, income_with, month_key, with_transaction,
  zero_or,
}

module _ ⦃p : Platform⦄ where
  open p use {Float}

  -- the transactions of a month, and those of a category
  abbrev pub in_month : String → List Transaction → List Transaction
  in_month month [] = []
  in_month month (t ∷ ts) =
      let rest = in_month month ts in if str_eq (month_key t.date) month then t ∷ rest else rest

  abbrev pub in_category : String → List Transaction → List Transaction
  in_category c [] = []
  in_category c (t ∷ ts) =
      let rest = in_category c ts in if str_eq (category_of t) c then t ∷ rest else rest

  -- What comes in, goes out and is charged, added up in the given order.
  abbrev pub incomes : Float → List Transaction → Float
  incomes total [] = total
  incomes total (t ∷ ts) = incomes (income_with t.direction total t.amount) ts

  abbrev pub expenses : Float → List Transaction → Float
  expenses total [] = total
  expenses total (t ∷ ts) = expenses (expense_with t.direction total t.amount) ts

  abbrev pub charges : Float → List Transaction → Float
  charges total [] = total
  charges total (t ∷ ts) = charges (p.add total (charge t.direction t.amount)) ts

  -- the bucket after some transactions
  abbrev pub filled_with : List Transaction → Bucket → Bucket
  filled_with [] b = b
  filled_with (t ∷ ts) b = filled_with ts (with_transaction t b)

  pub income-filled_with :
      (ts : List Transaction) (b : Bucket) → (filled_with ts b).income ≡ incomes b.income ts
  unfolding with_transaction
  income-filled_with [] b = refl
  income-filled_with (t ∷ ts) b = income-filled_with ts (with_transaction t b)

  pub expense-filled_with :
      (ts : List Transaction) (b : Bucket) → (filled_with ts b).expense ≡ expenses b.expense ts
  unfolding with_transaction
  expense-filled_with [] b = refl
  expense-filled_with (t ∷ ts) b = expense-filled_with ts (with_transaction t b)

  net-filled_with_from :
      (ts : List Transaction) (b : Bucket)
      → b.net ≡ p.sub b.income b.expense
      → (filled_with ts b).net ≡ p.sub (filled_with ts b).income (filled_with ts b).expense
  unfolding with_transaction
  net-filled_with_from [] b h = h
  net-filled_with_from (t ∷ ts) b h = net-filled_with_from ts (with_transaction t b) refl

  pub net-filled_with :
      (t : Transaction) (ts : List Transaction) (b : Bucket)
      → (filled_with (t ∷ ts) b).net
        ≡ p.sub (filled_with (t ∷ ts) b).income (filled_with (t ∷ ts) b).expense
  unfolding with_transaction
  net-filled_with t ts b = net-filled_with_from ts (with_transaction t b) refl

  -- the total of a category, `none` where no transaction has it
  abbrev pub charged : Option Float → List Transaction → Option Float
  charged total [] = total
  charged total (t ∷ ts) = charged (some (p.add (zero_or total) (charge t.direction t.amount))) ts

  pub category-filled_with :
      (c : String) (ts : List Transaction) (b : Bucket)
      → get c (filled_with ts b).by_category ≡ charged (get c b.by_category) (in_category c ts)
  unfolding with_transaction
  category-filled_with c [] b = refl
  category-filled_with c (t ∷ ts) b =
      category-filled_with c ts (with_transaction t b)
      ∙ ground (
        arith,
        str_eq_iff (category_of t) c,
        get-put (category_of t) c
            (p.add (zero_or (get (category_of t) b.by_category)) (charge t.direction t.amount))
            b.by_category,
      )

  -- the bucket of a month after some transactions, `none` where there is none
  abbrev pub after : Option Bucket → List Transaction → Option Bucket
  after b [] = b
  after b (t ∷ ts) = after (some (with_transaction t (bucket_or b))) ts

  pub after-filled_with :
      (ts : List Transaction) (b : Bucket) → after (some b) ts ≡ some (filled_with ts b)
  after-filled_with [] b = refl
  after-filled_with (t ∷ ts) b = after-filled_with ts (with_transaction t b)
