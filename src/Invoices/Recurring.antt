-- ===== src/Invoices/Recurring.antt =====
-- Vendors with charges at regular intervals (gbrain/invoice_ingestion.py).
use nemoclaw_smb.Base.{
  String, Bool, Option, none, some, List, [], ◌∷◌, ◌++◌, ◌&&◌, ℕ, length, map, sort, str_le, ltb,
  if◌then◌else◌,
}
use nemoclaw_smb.Base.Dict.{Dict, get, put}
use nemoclaw_smb.Base.Act.{pure, ◌>>=◌}
use nemoclaw_smb.Platform.{Platform}
use nemoclaw_smb.Ingestion.{Adapter}
use nemoclaw_smb.Ingestion.Loader.{same_float}
use nemoclaw_smb.Invoices.{Invoice, Raw, parse_all}

module _ ⦃p : Platform⦄ where
  open p use {Float}

  pub record Recurring : Type 0 where
    pub vendor : String
    pub amount : Float
    pub frequency : String
    pub monthly_cost : Float
    pub last_seen : String
    pub occurrences : ℕ

  -- 0.15 and 0.01
  abbrev amount_tolerance : Float
  amount_tolerance = p.div (p.of_ℕ 15) (p.of_ℕ 100)

  abbrev pub one_cent : Float
  one_cent = p.div (p.of_ℕ 1) (p.of_ℕ 100)

  -- `max(a, b)`
  abbrev pub larger : Float → Float → Float
  larger a b = if p.lt a b then b else a

  -- Charges grouped by amount, under the amount of the first.
  abbrev Groups : Type 0
  Groups = List (Float × List Invoice)

  abbrev is_near : Float → Float → Bool
  is_near amount key =
      p.lt (p.div (p.abs (p.sub amount key)) (larger key one_cent)) amount_tolerance

  abbrev put_equal : Invoice → Groups → Groups
  put_equal inv [] = (inv.amount, inv ∷ []) ∷ []
  put_equal inv ((key, group) ∷ groups) =
      let rest = put_equal inv groups in
      if same_float key inv.amount then (key, group ++ (inv ∷ [])) ∷ groups else (key, group) ∷ rest

  -- the first group that is near, `none` where there is none
  abbrev put_near : Invoice → Groups → Option Groups
  put_near inv [] = none
  put_near inv ((key, group) ∷ groups) =
      let rest = put_near inv groups in
      if is_near inv.amount key
      then some ((key, group ++ (inv ∷ [])) ∷ groups)
      else elim rest [ none ↦ none | some more ↦ some ((key, group) ∷ more) ]

  unfoldable pub amount_groups : List Invoice → Groups → Groups
  amount_groups [] groups = groups
  amount_groups (inv ∷ invs) groups =
      amount_groups invs
        (elim (put_near inv groups) [ none ↦ put_equal inv groups | some more ↦ more ])

  -- `sum(xs)`, from the left
  abbrev pub sum_from : Float → List Float → Float
  sum_from total [] = total
  sum_from total (x ∷ xs) = sum_from (p.add total x) xs

  abbrev pub average : List Float → Float
  average xs = p.div (sum_from (p.of_ℕ 0) xs) (p.of_ℕ (length xs))

  abbrev intervals : List String → List Float
  intervals [] = []
  intervals (d ∷ []) = []
  intervals (d ∷ e ∷ ds) = p.days_between d e ∷ intervals (e ∷ ds)

  abbrev last_of : String → List String → String
  last_of d [] = d
  last_of d (e ∷ ds) = last_of e ds

  abbrev is_between : ℕ → ℕ → Float → Bool
  is_between low high x = p.le (p.of_ℕ low) x && p.le x (p.of_ℕ high)

  -- the name of an interval, and the months in it
  unfoldable pub frequency_of : Float → Option (String × ℕ)
  frequency_of days =
      if is_between 20 40 days
      then some ("monthly", 1)
      else if is_between 80 100 days
      then some ("quarterly", 3)
      else if is_between 340 400 days
      then some ("annual", 12)
      else none

  abbrev recurring_of : String → List Invoice → String × ℕ → Recurring
  recurring_of vendor group (frequency, months) =
      let cost = average (map (λ (i : Invoice). i.amount) group) in
      record {
        vendor = vendor;
        amount = p.round_to 2 cost;
        frequency = frequency;
        monthly_cost = p.round_to 2 (p.div cost (p.of_ℕ months));
        last_seen = last_of "" (sort str_le (map (λ (i : Invoice). i.date) group));
        occurrences = length group;
      }

  -- a group of two charges or more at a regular interval
  abbrev regular : String → List Invoice → Option Recurring
  regular vendor group =
      if ltb (length group) 2
      then none
      else elim (frequency_of
          (average (intervals (sort str_le (map (λ (i : Invoice). i.date) group))))) [
            | none ↦ none
            | some found ↦ some (recurring_of vendor group found)
          ]

  unfoldable pub first_regular : String → Groups → Option Recurring
  first_regular vendor [] = none
  first_regular vendor ((key, group) ∷ groups) =
      let later = first_regular vendor groups in
      elim (regular vendor group) [ none ↦ later | some r ↦ some r ]

  -- `_find_recurring_group`
  unfoldable pub find_recurring_group : String → List Invoice → Option Recurring
  find_recurring_group vendor entries = first_regular vendor (amount_groups entries [])

  abbrev entries_of : String → Dict (List Invoice) → List Invoice
  entries_of vendor groups = elim (get vendor groups) [ none ↦ [] | some l ↦ l ]

  unfoldable pub by_vendor : List Invoice → Dict (List Invoice) → Dict (List Invoice)
  by_vendor [] groups = groups
  by_vendor (inv ∷ invs) groups =
      by_vendor invs (put inv.vendor (entries_of inv.vendor groups ++ (inv ∷ [])) groups)

  unfoldable pub recurring_vendors : Dict (List Invoice) → List Recurring
  recurring_vendors [] = []
  recurring_vendors ((vendor, entries) ∷ groups) =
      let rest = recurring_vendors groups in
      elim (if ltb (length entries) 2 then none else find_recurring_group vendor entries) [
        | none ↦ rest
        | some r ↦ r ∷ rest
      ]

  -- a reverse sort keeps the order of equal keys
  abbrev by_cost : Recurring → Recurring → Bool
  by_cost a b = p.le b.monthly_cost a.monthly_cost

  unfoldable pub detect_recurring : List Raw → Adapter (List Recurring)
  detect_recurring raws =
      parse_all raws >>= λ invs. pure (sort by_cost (recurring_vendors (by_vendor invs [])))
