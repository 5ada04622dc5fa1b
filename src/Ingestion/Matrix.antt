-- ===== src/Ingestion/Matrix.antt =====
-- Cashflow matrices, with a category in each row and a month in each column
-- (ingestion/cashflow_matrix.py).
use nemoclaw_smb.Base.{
  ℕ, zero, ◌+◌, String, Bool, true, false, ◌||◌, ◌&&◌, Option, none, some, List, [], ◌∷◌, ◌++◌,
  concat, ends_with, nth, starts_with, str_eq, strip_parens, without_char, if◌then◌else◌,
}
use nemoclaw_smb.Base.Dict.{Dict, get}
use nemoclaw_smb.Base.Act.{Result, ok, err, lift, pure, value_error, ◌>>=◌}
use nemoclaw_smb.Platform.{Platform}
use nemoclaw_smb.Ingestion.{Adapter, Direction, Transaction, expense, income, read_csv}

abbrev month_index : Dict ℕ
month_index =
    ("jan", 1)
    ∷ ("feb", 2)
    ∷ ("mar", 3)
    ∷ ("march", 3)
    ∷ ("apr", 4)
    ∷ ("may", 5)
    ∷ ("jun", 6)
    ∷ ("june", 6)
    ∷ ("jul", 7)
    ∷ ("july", 7)
    ∷ ("aug", 8)
    ∷ ("sept", 9)
    ∷ ("sep", 9)
    ∷ ("oct", 10)
    ∷ ("nov", 11)
    ∷ ("dec", 12)
    ∷ []

abbrev pub default_income : List String
default_income = "Revenue" ∷ "Pet fees" ∷ "Parents/Friends Stay" ∷ []

abbrev pub default_expense : List String
default_expense =
    "Mgmt Fees" ∷ "Yard care X2 a  month" ∷ "Oceanside Munirevs" ∷ "Water+water waste (COO)"
    ∷ "City Waste (waste mgmt)" ∷ "Internet (7962)" ∷ "Electricity+ Gas (SDGE)" ∷ "Instacart+Amazon"
    ∷ "Owner Exp (extra)" ∷ []

abbrev pub default_skip : List String
default_skip = "" ∷ "Net to owner" ∷ "Notes" ∷ "Total" ∷ "Avg Total Proceeds/Month" ∷ "Months" ∷ []

-- The lists that say what a row is.
pub record Labels : Type 0 where
  pub income_labels : List String
  pub expense_labels : List String
  pub skip_labels : List String

-- a year that the tenant's file gives as something else than a number fails where it is used
abbrev pub Year : Type 0
Year = Result ℕ

module _ ⦃p : Platform⦄ where
  open p use {Float}

  pub normalize_label : String → String
  normalize_label label = p.lower (p.strip (p.substitute "\\s+" " " label))

  -- `label in _build_lookup(labels)`
  pub in_lookup : String → List String → Bool
  in_lookup norm [] = false
  in_lookup norm (label ∷ labels) =
      let rest = in_lookup norm labels in if str_eq (normalize_label label) norm then true else rest

  unfoldable pub month_of : String → Option ℕ
  month_of cell = get (p.lower (p.strip cell)) month_index

  abbrev any_month : List String → Bool
  any_month [] = false
  any_month (cell ∷ cells) =
      let rest = any_month cells in elim (month_of cell) [ some _ ↦ true | none ↦ rest ]

  -- Every exception counts as no matrix. The tokens of the months are the keys of their numbers.
  unfoldable pub is_matrix : String → Bool
  is_matrix path = elim (p.csv_rows path) [
    | none ↦ false
    | some [] ↦ false
    | some (header ∷ _) ↦ any_month header
  ]

  -- `int(text)` of the digits that a pattern has found
  abbrev int_of : String → Result ℕ
  int_of s = elim (p.parse_int s) [ none ↦ err value_error | some n ↦ ok n ]

  abbrev century : Result ℕ → Result (Option ℕ)
  century (err x) = err x
  century (ok n) = ok (some (2000 + n))

  abbrev whole : Result ℕ → Result (Option ℕ)
  whole (err x) = err x
  whole (ok n) = ok (some n)

  -- `_infer_year`; two digits are never above 99
  pub infer_year : String → Result (Option ℕ)
  infer_year path =
      let stem = p.path_stem path in
      elim (p.search_group "(20\\d{2})" stem) [
        | some year ↦ whole (int_of year)
        | none ↦ elim (p.search_group "[Cc]ashflows?\\s+(\\d{2})\\b" stem) [
          | some two ↦ century (int_of two)
          | none ↦ elim (p.search_group "(\\d{2})$" stem) [
            | some two ↦ century (int_of two)
            | none ↦ ok none
          ]
        ]
      ]

  -- the digits of a cell
  abbrev digits : String → String
  digits s = p.strip (without_char 44 (without_char 36 (strip_parens s)))

  -- `_parse_amount`: `none` for a cell that is blank or no number
  pub parse_amount : String → Option Float
  parse_amount cell =
      let s = p.strip cell in
      if str_eq s "" || str_eq s "-" then none else elim (p.parse_float (digits s)) [
        | none ↦ none
        | some x ↦ some (if starts_with "(" s && ends_with ")" s then p.neg x else x)
      ]

  -- `_last_day`
  pub last_day : ℕ → ℕ → String
  last_day year month =
      concat
        (p.padded 4 year ∷ "-" ∷ p.padded 2 month ∷ "-" ∷ p.padded 2 (p.month_days year month) ∷ [])

  -- `_find_month_columns`, from a column on
  pub month_columns : ℕ → List String → List (ℕ × ℕ)
  month_columns i [] = []
  month_columns i (cell ∷ cells) =
      let rest = month_columns (i + 1) cells in
      elim (month_of cell) [ none ↦ rest | some month ↦ (i, month) ∷ rest ]

  abbrev cell_at : ℕ → List String → String
  cell_at i row = elim (nth row i) [ none ↦ "" | some c ↦ c ]

  abbrev matrix_record : ℕ → ℕ → String → Direction → Float → Transaction
  matrix_record year month label direction amount = record {
    date = last_day year month;
    vendor = label;
    amount = p.abs amount;
    direction = direction;
    category = some label;
    source = "cashflow";
  }

  -- the loop over the month columns of a row
  unfoldable pub row_records :
      Year → String → Direction → List String → List (ℕ × ℕ) → Result (List Transaction)
  row_records year label direction row [] = ok []
  row_records year label direction row ((i, month) ∷ columns) =
      let rest = row_records year label direction row columns in
      elim (parse_amount (cell_at i row)) [
        | none ↦ rest
        | some amount ↦ elim year [
          | err x ↦ err x
          | ok y ↦ elim rest [
            | err x ↦ err x
            | ok more ↦ ok (matrix_record y month label direction amount ∷ more)
          ]
        ]
      ]

  -- whether a row is income or an expense, and `none` for a row that is left out
  unfoldable pub direction_of : Labels → String → Option Direction
  direction_of labels norm =
      if in_lookup norm labels.skip_labels || str_eq norm ""
      then none
      else if in_lookup norm labels.income_labels
      then some income
      else if in_lookup norm labels.expense_labels
      then some expense
      else none

  abbrev label_records : Year → Labels → List (ℕ × ℕ) → List String → Result (List Transaction)
  label_records year labels columns [] = ok []
  label_records year labels columns (first ∷ cells) =
      let label = p.strip first in
      elim (direction_of labels (normalize_label label)) [
        | none ↦ ok []
        | some direction ↦ row_records year label direction (first ∷ cells) columns
      ]

  unfoldable pub matrix_records :
      Year → Labels → List (ℕ × ℕ) → List (List String) → Result (List Transaction)
  matrix_records year labels columns [] = ok []
  matrix_records year labels columns (row ∷ rows) =
      let later = matrix_records year labels columns rows in
      elim (label_records year labels columns row) [
        | err x ↦ err x
        | ok here ↦ elim later [ err x ↦ err x | ok more ↦ ok (here ++ more) ]
      ]

  -- the given year, or that of the name, or that of today
  abbrev year_or : Option Year → String → Adapter Year
  year_or (some year) path tick = (ok year, tick)
  year_or none path tick = elim (infer_year path) [
    | err x ↦ (err x, tick)
    | ok none ↦ (ok (ok (p.year_of tick)), tick + 1)
    | ok (some zero) ↦ (ok (ok (p.year_of tick)), tick + 1)
    | ok (some year) ↦ (ok (ok year), tick)
  ]

  -- `next(reader, [])`, and the rows after it
  unfoldable pub load_matrix : String → Option Year → Labels → Adapter (List Transaction)
  load_matrix path given labels = do
    year ← year_or given path
    rows ← lift (read_csv path)
    elim rows [
      | [] ↦ pure []
      | header ∷ lines ↦ lift (matrix_records year labels (month_columns 0 header) lines)
    ]
