-- ===== src/Ingestion.antt =====
-- What the adapters of files share (ingestion/, gbrain/invoice_ingestion.py): normalized transactions,
-- rows of `csv.DictReader`, dates.
pub mod Chase
pub mod Spreadsheet
pub mod Matrix
pub mod Loader
pub mod Loaded
use Prim.Native.String.{slice}
use nemoclaw_smb.Base.{
  ℕ, ◌+◌, String, Bool, true, false, Option, none, some, List, [], ◌∷◌, str_eq, if◌then◌else◌,
}
use nemoclaw_smb.Base.Dict.{Dict, get, put}
use nemoclaw_smb.Base.Act.{Act, ok, err, type_error, attribute_error, os_error, Result}
use nemoclaw_smb.Platform.{Platform}

pub data Direction : Type 0 where
  expense income : Direction

-- A cell of a row, `none` for `None`.
abbrev pub Cell : Type 0
Cell = Option String

-- A row of `csv.DictReader`, and whether it has cells beyond the headers, which go to the key `None`.
pub record Row : Type 0 where
  pub cells : Dict Cell
  pub has_extra : Bool

unfoldable pub zip_row : List String → List String → Dict Cell → Row
zip_row [] [] d = record { cells = d; has_extra = false }
zip_row [] (_ ∷ _) d = record { cells = d; has_extra = true }
zip_row (h ∷ headers) [] d = zip_row headers [] (put h none d)
zip_row (h ∷ headers) (c ∷ cells) d = zip_row headers cells (put h (some c) d)

-- the rows of the reader, which skips the empty ones
unfoldable pub dict_rows : List String → List (List String) → List Row
dict_rows headers [] = []
dict_rows headers ([] ∷ rows) = dict_rows headers rows
dict_rows headers ((c ∷ cells) ∷ rows) = zip_row headers (c ∷ cells) [] ∷ dict_rows headers rows

-- `row.get(key, other)`
abbrev pub cell_or : String → String → Dict Cell → Cell
cell_or key other cells = elim (get key cells) [ none ↦ some other | some c ↦ c ]

-- `a or b` of cells
abbrev pub or_cell : Cell → Cell → Cell
or_cell none other = other
or_cell (some s) other = if str_eq s "" then other else some s

-- `text or None`
abbrev pub filled : String → Option String
filled s = if str_eq s "" then none else some s

-- `a or b` of texts
abbrev pub text_or : String → String → String
text_or s other = if str_eq s "" then other else s

module _ ⦃p : Platform⦄ where
  open p use {Float}

  -- The dict that the adapters make of a row.
  pub record Transaction : Type 0 where
    pub date : String
    pub vendor : String
    pub amount : Float
    pub direction : Direction
    pub category : Option String
    pub source : String

  -- what the adapters read counts the readings of the clock
  abbrev pub Adapter : Type 0 → Type 0
  Adapter A = Act ℕ A

  -- `cell.strip()`
  abbrev pub strip_cell : Cell → Adapter String
  strip_cell none tick = (err attribute_error, tick)
  strip_cell (some s) tick = (ok (p.strip s), tick)

  -- `path.read_text` and `csv.reader` on it
  abbrev pub read_csv : String → Result (List (List String))
  read_csv path = elim (p.csv_rows path) [ none ↦ err os_error | some rows ↦ ok rows ]

  abbrev date_formats : List String
  date_formats = "%Y-%m-%d" ∷ "%m/%d/%Y" ∷ "%m-%d-%Y" ∷ "%m/%d/%y" ∷ "%Y/%m/%d" ∷ "%d/%m/%Y" ∷ []

  -- the first format that fits
  unfoldable pub first_date : List String → String → Option String
  first_date [] s = none
  first_date (format ∷ formats) s =
      let later = first_date formats s in
      elim (p.strptime format s) [ none ↦ later | some date ↦ some date ]

  -- `_parse_date_iso`: today where no format fits
  unfoldable pub parse_date_iso : Cell → Adapter String
  parse_date_iso none tick = (err type_error, tick)
  parse_date_iso (some s) tick = elim (first_date date_formats s) [
    | none ↦ (ok (slice (p.clock tick).iso 0 10), tick + 1)
    | some date ↦ (ok date, tick)
  ]
