-- ===== src/Pnl/Months.antt =====
-- The report against plain sums over each month (analysis/pnl.py).
use mathlib.Core.Path.{subst}
use nemoclaw_smb.Base.{
  ◌≡◌, ◌≢◌, refl, sym, ap, ◌∙◌, String, Bool, true, Option, none, some, List, [], ◌∷◌, IsSorted,
  arith, insert_sorted, map, member, sort, sort-IsSorted, str_eq, str_eq_iff, str_le, str_le_total,
  if◌then◌else◌,
}
use nemoclaw_smb.Base.Dict.{Dict, contains, get, put, get-put}
use nemoclaw_smb.Platform.{Platform}
use nemoclaw_smb.Ingestion.{Transaction}
use nemoclaw_smb.Pnl.{
  Bucket, bucket_or, bucketed, compute_pnl, keys, month_key, net_of, no_bucket, result_for, rounded,
  rounded_values, with_transaction,
}
use nemoclaw_smb.Pnl.Buckets.{
  after, after-filled_with, category-filled_with, charged, expense-filled_with, expenses,
  filled_with, in_category, in_month, income-filled_with, incomes, net-filled_with,
}

module _ (le : String → String → Bool) where
  member-insert_sorted :
      (m x : String) (ys : List String)
      → member m (insert_sorted le x ys) ≡ (if str_eq m x then true else member m ys)
  unfolding member insert_sorted
  member-insert_sorted m x [] = refl
  member-insert_sorted m x (y ∷ ys) = ground (arith, member-insert_sorted m x ys)

  member-sort : (m : String) (xs : List String) → member m (sort le xs) ≡ member m xs
  unfolding member sort
  member-sort m [] = refl
  member-sort m (x ∷ xs) = ground (arith, member-insert_sorted m x (sort le xs), member-sort m xs)

module _ {V : Type 0} where
  member-keys : (m : String) (d : Dict V) → member m (keys d) ≡ contains m d
  unfolding member contains get
  member-keys m [] = refl
  member-keys m ((k, v) ∷ d) = ground (arith, member-keys m d, str_eq_iff m k, str_eq_iff k m)

module _ ⦃p : Platform⦄ where
  get-bucketed :
      (m : String) (ts : List Transaction) (d : Dict Bucket)
      → m ≢ ""
      → get m (bucketed ts d) ≡ after (get m d) (in_month m ts)
  unfolding bucketed
  get-bucketed m [] d h = refl
  get-bucketed m (t ∷ ts) d h =
      let month = month_key t.date in
      let next = put month (with_transaction t (bucket_or (get month d))) d in
      get-bucketed m ts (if str_eq month "" then d else next) h
      ∙ ground (
        arith,
        str_eq_iff month m,
        str_eq_iff month "",
        get-put month m (with_transaction t (bucket_or (get month d))) d,
      )

  get-result_for :
      (m : String) (monthly : Dict Bucket) (months : List String)
      → get m (result_for monthly months)
        ≡ (if member m months then some (rounded (bucket_or (get m monthly))) else none)
  unfolding result_for member get
  get-result_for m monthly [] = refl
  get-result_for m monthly (k ∷ ks) =
      ground (arith, get-result_for m monthly ks, str_eq_iff m k, str_eq_iff k m)

  keys-result_for :
      (monthly : Dict Bucket) (months : List String) → keys (result_for monthly months) ≡ months
  unfolding result_for
  keys-result_for monthly [] = refl
  keys-result_for monthly (k ∷ ks) = ap (λ l. k ∷ l) (keys-result_for monthly ks)

  abbrev pub rounded_option : Option p.Float → Option p.Float
  rounded_option none = none
  rounded_option (some x) = some (p.round_to 2 x)

  get-rounded_values :
      (c : String) (d : Dict p.Float) → get c (rounded_values d) ≡ rounded_option (get c d)
  unfolding get
  get-rounded_values c [] = refl
  get-rounded_values c ((k, x) ∷ d) = ground (arith, get-rounded_values c d)

  -- What a bucket says of the transactions of its month.
  pub record IsMonth (ts : List Transaction) (b : Bucket) : Type 0 where
    pub income : b.income ≡ p.round_to 2 (incomes (p.of_ℕ 0) ts)
    pub expense : b.expense ≡ p.round_to 2 (expenses (p.of_ℕ 0) ts)
    pub net : b.net ≡ p.round_to 2 (p.sub (incomes (p.of_ℕ 0) ts) (expenses (p.of_ℕ 0) ts))
    pub category :
        (c : String) → get c b.by_category ≡ rounded_option (charged none (in_category c ts))

  -- what the report says of a month
  abbrev pub IsReported : List Transaction → Option Bucket → Type 0
  IsReported [] reported = reported ≡ none
  IsReported (t ∷ ts) reported = (b : Bucket) × (reported ≡ some b) × IsMonth (t ∷ ts) b

  abbrev shown : Option Bucket → Option Bucket
  shown none = none
  shown (some b) = some (rounded b)

  IsReported-after : (ts : List Transaction) → IsReported ts (shown (after none ts))
  unfolding get
  IsReported-after [] = refl
  IsReported-after (t ∷ ts) =
      let b = filled_with (t ∷ ts) no_bucket in
      let net_sums : b.net ≡ p.sub (incomes (p.of_ℕ 0) (t ∷ ts)) (expenses (p.of_ℕ 0) (t ∷ ts)) =
        net-filled_with t ts no_bucket
        ∙ ap (λ x. p.sub x b.expense) (income-filled_with (t ∷ ts) no_bucket)
        ∙ ap (λ x. p.sub (incomes (p.of_ℕ 0) (t ∷ ts)) x)
            (expense-filled_with (t ∷ ts) no_bucket) in
      (
        rounded b,
        ap shown (after-filled_with ts (with_transaction t no_bucket)),
        record {
          income = ap (p.round_to 2) (income-filled_with (t ∷ ts) no_bucket);
          expense = ap (p.round_to 2) (expense-filled_with (t ∷ ts) no_bucket);
          net = ap (p.round_to 2) net_sums;
          category = λ c.
              get-rounded_values c b.by_category
              ∙ ap rounded_option (category-filled_with c (t ∷ ts) no_bucket);
        },
      )

  get-monthly :
      (m : String) (ts : List Transaction)
      → m ≢ ""
      → get m (compute_pnl ts).monthly ≡ shown (after none (in_month m ts))
  unfolding compute_pnl contains get
  get-monthly m ts h =
      let monthly = bucketed ts [] in
      ground (
        arith,
        get-result_for m monthly (sort str_le (keys monthly)),
        member-sort str_le m (keys monthly),
        member-keys m monthly,
        get-bucketed m ts [] h,
      )

  -- For each month but the empty text, the report has nothing where no transaction is in the month.
  -- Otherwise its income and its expense are the sums of the amounts of the month in the given order,
  -- its net is their difference, and each category has the sum of its expenses less its incomes, all
  -- rounded to cents. The months of the report are in order, and the trend has each month with its net.
  pub compute_pnl_lem :
      (ts : List Transaction) (m : String)
      → m ≢ ""
      → IsReported (in_month m ts) (get m (compute_pnl ts).monthly)
        × IsSorted str_le (keys (compute_pnl ts).monthly)
        × ((compute_pnl ts).margin_trend ≡ map net_of (compute_pnl ts).monthly)
  unfolding compute_pnl
  compute_pnl_lem ts m h =
      let months = sort str_le (keys (bucketed ts [])) in
      (
        subst (IsReported (in_month m ts)) (sym (get-monthly m ts h))
            (IsReported-after (in_month m ts)),
        subst (IsSorted str_le) (sym (keys-result_for (bucketed ts []) months))
            (sort-IsSorted str_le str_le_total (keys (bucketed ts []))),
        refl,
      )
