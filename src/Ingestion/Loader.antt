-- ===== src/Ingestion/Loader.antt =====
-- The transactions of a tenant's files (ingestion/loader.py).
use nemoclaw_smb.Base.{
  ℕ, ◌&&◌, String, Bool, true, false, Option, none, some, List, [], ◌∷◌, ◌++◌, sort, str_eq, str_le,
  if◌then◌else◌,
}
use nemoclaw_smb.Base.Dict.{get}
use nemoclaw_smb.Base.Act.{Result, ok, err, lift, type_error, value_error, ◌>>=◌}
use nemoclaw_smb.Json.{Value, Fields, Items, bool, int, str, arr, obj, nil, cons, end, field}
use nemoclaw_smb.Platform.{Platform}
use nemoclaw_smb.Platform.Values.{field_of, truthy}
use nemoclaw_smb.Tenancy.{Tenant}
use nemoclaw_smb.Ingestion.{Adapter, Transaction}
use nemoclaw_smb.Ingestion.Chase.{is_chase_csv, parse_chase_csv}
use nemoclaw_smb.Ingestion.Spreadsheet.{parse_spreadsheet}
use nemoclaw_smb.Ingestion.Matrix.{
  Labels, Year, default_expense, default_income, default_skip, is_matrix, load_matrix,
}

module _ ⦃p : Platform⦄ where
  open p use {Float}

  -- `d.get(key, {})` with what is not an object taken for `{}`
  abbrev section : Option (Value Float) → Fields Float
  section (some (obj fields)) = fields
  section _ = end

  -- `_get_column_map`
  unfoldable pub column_map : Tenant → Value Float
  column_map tenant = elim (field_of "columns" (section (get "spreadsheet" tenant.ingestion))) [
    | none ↦ obj end
    | some v ↦ v
  ]

  -- `list(include)` of a list; the patterns that are no texts make `Path.match` fail
  abbrev patterns : Items Float → List (Option String)
  patterns nil = []
  patterns (cons (str s) items) = some s ∷ patterns items
  patterns (cons _ items) = none ∷ patterns items

  abbrev globs_of : Value Float → List (Option String)
  globs_of (arr items) = patterns items
  globs_of (str s) = some s ∷ []
  globs_of other = some (p.str_value other) ∷ []

  -- `_get_include_globs`; an empty list means every file
  unfoldable pub include_globs : Tenant → List (Option String)
  include_globs tenant = elim (get "include" tenant.ingestion) [
    | none ↦ []
    | some v ↦ if truthy v then globs_of v else []
  ]

  -- `_get_cashflow_config`
  abbrev cashflow_config : Tenant → Fields Float
  cashflow_config tenant = section (get "cashflow" tenant.ingestion)

  -- `_file_matches_include`
  pub file_matches_include : String → List (Option String) → Result Bool
  file_matches_include path [] = ok false
  file_matches_include path (none ∷ globs) = err type_error
  file_matches_include path (some glob ∷ globs) =
      let later = file_matches_include path globs in
      elim (p.path_match path glob) [
        | none ↦ err value_error
        | some true ↦ ok true
        | some false ↦ later
      ]

  -- `[f for f in files if _file_matches_include(f, include_globs)]`
  pub included : List (Option String) → List String → Result (List String)
  included globs [] = ok []
  included globs (path ∷ paths) =
      let later = included globs paths in
      elim (file_matches_include path globs) [
        | err x ↦ err x
        | ok kept ↦ elim later [ err x ↦ err x | ok more ↦ ok (if kept then path ∷ more else more) ]
      ]

  -- `a == b` of floats
  abbrev pub same_float : Float → Float → Bool
  same_float a b = p.le a b && p.le b a

  -- equal keys `(date, vendor, amount)`
  unfoldable pub same_key : Transaction → Transaction → Bool
  same_key t u = str_eq t.date u.date && str_eq t.vendor u.vendor && same_float t.amount u.amount

  unfoldable pub seen_in : Transaction → List Transaction → Bool
  seen_in t [] = false
  seen_in t (u ∷ us) = let rest = seen_in t us in if same_key t u then true else rest

  -- The loop of `_dedup`: the first of those with equal keys is kept, in the given order.
  unfoldable pub dedup_from : List Transaction → List Transaction → List Transaction
  dedup_from seen [] = []
  dedup_from seen (t ∷ ts) =
      let kept = dedup_from (t ∷ seen) ts in
      let skipped = dedup_from seen ts in if seen_in t seen then skipped else t ∷ kept

  abbrev pub dedup : List Transaction → List Transaction
  dedup = dedup_from []

  -- the labels of a configured list; iterating a text gives its characters, which are labels too
  abbrev label_texts : Items Float → Result (List String)
  label_texts nil = ok []
  label_texts (cons (str s) items) =
      let later = label_texts items in elim later [ err x ↦ err x | ok more ↦ ok (s ∷ more) ]
  label_texts (cons _ items) = err type_error

  abbrev keys : Fields Float → List String
  keys end = []
  keys (field k v fields) = k ∷ keys fields

  abbrev pub characters : String → List String
  characters String.[] = []
  characters (String.◌∷◌ c s) = (String.◌∷◌ c "") ∷ characters s

  abbrev labels_or : List String → Option (Value Float) → Result (List String)
  labels_or default none = ok default
  labels_or default (some (arr items)) = label_texts items
  labels_or default (some (str s)) = ok (characters s)
  labels_or default (some (obj fields)) = ok (keys fields)
  labels_or default (some _) = err type_error

  pub configured_labels : Tenant → Result Labels
  configured_labels tenant =
      let config = cashflow_config tenant in
      elim (labels_or default_income (field_of "income" config)) [
        | err x ↦ err x
        | ok income ↦ elim (labels_or default_expense (field_of "expense" config)) [
          | err x ↦ err x
          | ok expense ↦ elim (labels_or default_skip (field_of "skip" config)) [
            | err x ↦ err x
            | ok skip ↦
                ok (record { income_labels = income; expense_labels = expense; skip_labels = skip })
          ]
        ]
      ]

  -- `cf_cfg.get("year") or None`
  abbrev year_value : Value Float → Year
  year_value (int n) = ok n
  year_value (bool true) = ok 1
  year_value _ = err type_error

  pub configured_year : Tenant → Option Year
  configured_year tenant = elim (field_of "year" (cashflow_config tenant)) [
    | none ↦ none
    | some v ↦ if truthy v then some (year_value v) else none
  ]

  -- the adapter that takes a file
  unfoldable pub load_file : Tenant → String → Adapter (List Transaction)
  load_file tenant path =
      if is_matrix path
      then (do
        labels ← lift (configured_labels tenant)
        load_matrix path (configured_year tenant) labels)
      else if is_chase_csv path
      then parse_chase_csv path
      else parse_spreadsheet path (column_map tenant)

  -- a file that fails is skipped
  unfoldable pub load_files : Tenant → List String → ℕ → List Transaction × ℕ
  load_files tenant [] tick = ([], tick)
  load_files tenant (path ∷ paths) tick =
      let (r, later) = load_file tenant path tick in
      let (rest, last) = load_files tenant paths later in
      elim r [ err _ ↦ (rest, last) | ok txns ↦ (txns ++ rest, last) ]

  abbrev pub by_date : Transaction → Transaction → Bool
  by_date t u = str_le t.date u.date

  abbrev pub files_of : Tenant → List String
  files_of tenant = p.glob tenant.data_root "*.csv" ++ p.glob tenant.data_root "*.xlsx"

  -- the files that are read
  unfoldable pub chosen_files : Tenant → Result (List String)
  chosen_files tenant =
      if p.path_exists tenant.data_root
      then elim (include_globs tenant) [
        | [] ↦ ok (files_of tenant)
        | g ∷ gs ↦ included (g ∷ gs) (files_of tenant)
      ]
      else ok []

  unfoldable pub load_transactions : Tenant → Adapter (List Transaction)
  load_transactions tenant tick = elim (chosen_files tenant) [
    | err x ↦ (err x, tick)
    | ok paths ↦
        let (all, later) = load_files tenant paths tick in (ok (sort by_date (dedup all)), later)
  ]
