-- ===== src/Ingestion/Chase.antt =====
-- Chase credit-card exports (ingestion/chase_csv.py).
use nemoclaw_smb.Base.{
  String, Bool, true, false, none, some, List, [], ◌∷◌, concat, member, str_eq, without_char,
  if◌then◌else◌,
}
use nemoclaw_smb.Base.Dict.{Dict, put}
use nemoclaw_smb.Base.Act.{attribute_error, raise, lift, pure, raise_if, ◌>>=◌, ◌>>◌}
use nemoclaw_smb.Platform.{Platform}
use nemoclaw_smb.Ingestion.{
  Adapter, Cell, Direction, Row, Transaction, cell_or, dict_rows, expense, filled, income, or_cell,
  parse_date_iso, read_csv, strip_cell, text_or,
}

module _ ⦃p : Platform⦄ where
  open p use {Float}

  abbrev chase_required_headers : List String
  chase_required_headers =
      "transaction date" ∷ "post date" ∷ "description" ∷ "category" ∷ "type" ∷ "amount" ∷ []

  abbrev folded_headers : List String → List String
  folded_headers [] = []
  folded_headers (h ∷ hs) =
      let rest = folded_headers hs in if str_eq h "" then rest else p.lower (p.strip h) ∷ rest

  abbrev all_in : List String → List String → Bool
  all_in [] headers = true
  all_in (h ∷ hs) headers = let rest = all_in hs headers in if member h headers then rest else false

  -- Every exception counts as no Chase file.
  unfoldable pub is_chase_csv : String → Bool
  is_chase_csv path = elim (p.csv_rows path) [
    | none ↦ false
    | some [] ↦ false
    | some (headers ∷ _) ↦ all_in chase_required_headers (folded_headers headers)
  ]

  abbrev stripped : Cell → Cell
  stripped none = none
  stripped (some s) = some (p.strip s)

  -- `_norm` on the keys that are texts
  abbrev norm : Dict Cell → Dict Cell → Dict Cell
  norm [] done = done
  norm ((k, c) ∷ cells) done = norm cells (put (p.lower (p.strip k)) (stripped c) done)

  -- `float(text)`, and 0 where that is a `ValueError`
  abbrev pub float_or_zero : String → Float
  float_or_zero s = elim (p.parse_float s) [ none ↦ p.of_ℕ 0 | some x ↦ x ]

  -- `cell.replace("$", "").replace(",", "").strip()`
  abbrev pub clean_amount : String → String
  clean_amount s = p.strip (without_char 44 (without_char 36 s))

  abbrev amount_of : Cell → Adapter Float
  amount_of none = raise attribute_error
  amount_of (some s) = pure (float_or_zero (clean_amount s))

  -- A negative amount is a charge.
  unfoldable pub signed : Float → Direction × Float
  signed x = if p.lt x (p.of_ℕ 0) then (expense, p.abs x) else (income, x)

  unfoldable pub chase_transaction : String → Row → Adapter Transaction
  chase_transaction path row = do
    raise_if row.has_extra attribute_error
    let cells = norm row.cells []
    date ←
        parse_date_iso
          (or_cell (cell_or "transaction date" "" cells) (cell_or "post date" "" cells))
    description ← strip_cell (cell_or "description" "" cells)
    category ← strip_cell (cell_or "category" "" cells)
    memo ← strip_cell (cell_or "memo" "" cells)
    raw ← amount_of (cell_or "amount" "0" cells)
    pure (record {
      date = date;
      vendor = text_or description (text_or memo "Unknown");
      amount = (signed raw).1;
      direction = (signed raw).0;
      category = filled category;
      source = concat ("chase:" ∷ p.path_name path ∷ []);
    })

  -- the loop of an adapter over its rows
  unfoldable pub each :
      {R : Type 0} → (R → Adapter Transaction) → List R → Adapter (List Transaction)
  each f [] = pure []
  each f (row ∷ rows) = do first ← f row; rest ← each f rows; pure (first ∷ rest)

  pub parse_chase_csv : String → Adapter (List Transaction)
  parse_chase_csv path = do
    rows ← lift (read_csv path)
    elim rows [
      | [] ↦ pure []
      | headers ∷ lines ↦ each (chase_transaction path) (dict_rows headers lines)
    ]
