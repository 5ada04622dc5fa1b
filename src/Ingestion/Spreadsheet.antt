-- ===== src/Ingestion/Spreadsheet.antt =====
-- Spreadsheets with one transaction in each row (ingestion/spreadsheet.py).
use nemoclaw_smb.Base.{
  String, false, Option, none, some, List, [], ◌∷◌, concat, member, str_eq, if◌then◌else◌,
}
use nemoclaw_smb.Base.Dict.{Dict, get, put}
use nemoclaw_smb.Base.Act.{attribute_error, lift, os_error, pure, raise, ◌>>=◌}
use nemoclaw_smb.Json.{Value, obj, str}
use nemoclaw_smb.Platform.{Platform}
use nemoclaw_smb.Platform.Values.{field_of, truthy}
use nemoclaw_smb.Ingestion.{
  Adapter, Cell, Direction, Row, Transaction, cell_or, dict_rows, expense, filled, income,
  parse_date_iso, read_csv, strip_cell, text_or,
}
use nemoclaw_smb.Ingestion.Chase.{clean_amount, each, float_or_zero, signed}

abbrev infer_map : Dict (List String)
infer_map =
    (
      "date",
      "date" ∷ "transaction date" ∷ "trans date" ∷ "txn date" ∷ "posted date" ∷ "post date" ∷ [],
    )
    ∷ ("vendor", "vendor" ∷ "description" ∷ "payee" ∷ "merchant" ∷ "name" ∷ [])
    ∷ ("amount", "amount" ∷ "amount_usd" ∷ "price" ∷ "total" ∷ "debit" ∷ "charge" ∷ [])
    ∷ ("category", "category" ∷ "type" ∷ "label" ∷ "tag" ∷ [])
    ∷ ("direction", "direction" ∷ "dr/cr" ∷ "debit/credit" ∷ "flow" ∷ [])
    ∷ []

abbrev candidates : String → List String
candidates canonical = elim (get canonical infer_map) [ none ↦ [] | some l ↦ l ]

-- The headers of the five fields.
pub record Columns : Type 0 where
  pub date : Option String
  pub vendor : Option String
  pub amount : Option String
  pub category : Option String
  pub direction : Option String

module _ ⦃p : Platform⦄ where
  open p use {Float}

  -- `{h.lower(): h for h in file_headers}`
  abbrev lower_headers : List String → Dict String → Dict String
  lower_headers [] done = done
  lower_headers (h ∷ hs) done = lower_headers hs (put (p.lower h) h done)

  abbrev first_match : List String → Dict String → Option String
  first_match [] lowered = none
  first_match (c ∷ cs) lowered =
      let later = first_match cs lowered in elim (get c lowered) [ none ↦ later | some h ↦ some h ]

  -- `column_map.get(canonical, "")`, where an empty map is `{}` and only a text can be a header
  abbrev explicit_header : String → Value Float → Adapter String
  explicit_header canonical (obj fields) = elim (field_of canonical fields) [
    | some (str s) ↦ pure s
    | _ ↦ pure ""
  ]
  explicit_header canonical other = if truthy other then raise attribute_error else pure ""

  -- the explicit header if the file has it, and otherwise the first common name
  unfoldable pub resolve_column : List String → Value Float → String → Adapter (Option String)
  resolve_column headers column_map canonical = do
    explicit ← explicit_header canonical column_map
    let inferred = first_match (candidates canonical) (lower_headers headers [])
    pure (
        if str_eq explicit ""
        then inferred
        else if member explicit headers
        then some explicit
        else inferred)

  unfoldable pub resolve_columns : List String → Value Float → Adapter Columns
  resolve_columns headers column_map = do
    date ← resolve_column headers column_map "date"
    vendor ← resolve_column headers column_map "vendor"
    amount ← resolve_column headers column_map "amount"
    category ← resolve_column headers column_map "category"
    direction ← resolve_column headers column_map "direction"
    pure (record {
      date = date;
      vendor = vendor;
      amount = amount;
      category = category;
      direction = direction;
    })

  abbrev expense_words : List String
  expense_words = "expense" ∷ "debit" ∷ "dr" ∷ "charge" ∷ "out" ∷ []

  abbrev income_words : List String
  income_words = "income" ∷ "credit" ∷ "cr" ∷ "payment" ∷ "in" ∷ "deposit" ∷ []

  -- a direction in words decides, and otherwise the sign
  abbrev directed : Float → Cell → Direction × Float
  directed raw none = signed raw
  directed raw (some s) =
      let word = p.strip (p.lower s) in
      if str_eq s ""
      then signed raw
      else if member word expense_words
      then (expense, p.abs raw)
      else if member word income_words
      then (income, p.abs raw)
      else signed raw

  unfoldable pub parse_amount_and_direction : Cell → Cell → Adapter (Direction × Float)
  parse_amount_and_direction none direction = raise attribute_error
  parse_amount_and_direction (some amount) direction =
      pure (directed (float_or_zero (clean_amount amount)) direction)

  -- the cell of a column, with what stands for it in a row or a file without the column
  abbrev column_or : Option String → String → Cell → Dict Cell → Cell
  column_or none other missing cells = missing
  column_or (some header) other missing cells = cell_or header other cells

  unfoldable pub sheet_transaction : String → Columns → Row → Adapter Transaction
  sheet_transaction path columns row = do
    date_raw ← strip_cell (column_or columns.date "" (some "") row.cells)
    date ← parse_date_iso (some date_raw)
    vendor ← strip_cell (column_or columns.vendor "" (some "Unknown") row.cells)
    money ←
        parse_amount_and_direction (column_or columns.amount "0" (some "0") row.cells)
          (column_or columns.direction "" none row.cells)
    category ← strip_cell (column_or columns.category "" (some "") row.cells)
    pure (record {
      date = date;
      vendor = text_or vendor "Unknown";
      amount = money.1;
      direction = money.0;
      category = filled category;
      source = concat ("spreadsheet:" ∷ p.path_name path ∷ []);
    })

  abbrev cell_text : Option String → String
  cell_text none = ""
  cell_text (some s) = s

  abbrev cell_texts : List (Option String) → List String
  cell_texts [] = []
  cell_texts (c ∷ cs) = cell_text c ∷ cell_texts cs

  -- a row of a workbook: the cells beyond the headers are left out
  abbrev workbook_row : List String → List (Option String) → Dict Cell → Row
  workbook_row [] cells d = record { cells = d; has_extra = false }
  workbook_row (h ∷ headers) [] d = record { cells = d; has_extra = false }
  workbook_row (h ∷ headers) (c ∷ cells) d =
      workbook_row headers cells (put h (some (cell_text c)) d)

  abbrev workbook_rows : List String → List (List (Option String)) → List Row
  workbook_rows headers [] = []
  workbook_rows headers (row ∷ rows) = workbook_row headers row [] ∷ workbook_rows headers rows

  -- `_read_rows_xlsx` and `_read_rows_csv`
  pub read_rows_xlsx : String → Adapter (List String × List Row)
  read_rows_xlsx path = elim (p.xlsx_rows path) [
    | none ↦ raise os_error
    | some [] ↦ pure ([], [])
    | some (headers ∷ rows) ↦ pure (cell_texts headers, workbook_rows (cell_texts headers) rows)
  ]

  unfoldable pub read_rows_csv : String → Adapter (List String × List Row)
  read_rows_csv path = do
    rows ← lift (read_csv path)
    elim rows [ [] ↦ pure ([], []) | headers ∷ lines ↦ pure (headers, dict_rows headers lines) ]

  unfoldable pub parse_spreadsheet : String → Value Float → Adapter (List Transaction)
  parse_spreadsheet path column_map = do
    table ←
        if str_eq (p.lower (p.path_suffix path)) ".xlsx"
        then read_rows_xlsx path
        else read_rows_csv path
    columns ← resolve_columns table.0 column_map
    each (sheet_transaction path columns) table.1
