-- ===== src/Invoices.antt =====
-- Invoices as a business gives them, normalized, and the records that the vendor graph is made of
-- (gbrain/invoice_ingestion.py).
pub mod Recurring
pub mod Payments
use nemoclaw_smb.Base.{
  ℕ, String, Bool, true, false, Option, none, some, List, [], ◌∷◌, ◌||◌, ◌&&◌, concat, ends_with,
  has_part, inner, member, remove_prefix, starts_with, str_eq, without_char, if◌then◌else◌,
}
use nemoclaw_smb.Base.Dict.{Dict, get}
use nemoclaw_smb.Base.Act.{Act, Result, ok, err, lift, pure, value_error, ◌>>=◌}
use nemoclaw_smb.Json.{Value, int, str}
use nemoclaw_smb.Platform.{Platform}
use nemoclaw_smb.Envelope.{float_of}
use nemoclaw_smb.Graph
use nemoclaw_smb.Graph.{Graph, Item, empty, load_records, paid_edge, vendor_node}
use nemoclaw_smb.Ingestion.{Adapter, parse_date_iso}

abbrev category_map : Dict String
category_map =
    ("adobe", "Design/Creative")
    ∷ ("figma", "Design/Creative")
    ∷ ("canva", "Design/Creative")
    ∷ ("aws", "Cloud/Infra")
    ∷ ("amazon web services", "Cloud/Infra")
    ∷ ("gcp", "Cloud/Infra")
    ∷ ("google cloud", "Cloud/Infra")
    ∷ ("azure", "Cloud/Infra")
    ∷ ("vercel", "Cloud/Infra")
    ∷ ("cloudflare", "Cloud/Infra")
    ∷ ("digitalocean", "Cloud/Infra")
    ∷ ("digital ocean", "Cloud/Infra")
    ∷ ("heroku", "Cloud/Infra")
    ∷ ("namecheap", "Cloud/Infra")
    ∷ ("gusto", "Payroll/HR")
    ∷ ("rippling", "Payroll/HR")
    ∷ ("deel", "Payroll/HR")
    ∷ ("remote.com", "Payroll/HR")
    ∷ ("slack", "Productivity")
    ∷ ("notion", "Productivity")
    ∷ ("google workspace", "Productivity")
    ∷ ("microsoft 365", "Productivity")
    ∷ ("zoom", "Productivity")
    ∷ ("dropbox", "Productivity")
    ∷ ("1password", "Productivity")
    ∷ ("linear", "Productivity")
    ∷ ("github", "Productivity")
    ∷ ("jira", "Productivity")
    ∷ ("confluence", "Productivity")
    ∷ ("airtable", "Productivity")
    ∷ ("loom", "Productivity")
    ∷ ("intercom", "Productivity")
    ∷ []

abbrev noise_prefixes : List String
noise_prefixes =
    "pos " ∷ "ach " ∷ "recurring " ∷ "autopay " ∷ "debit " ∷ "purchase " ∷ "checkcard " ∷ "visa "
    ∷ "mastercard " ∷ "sq *" ∷ "paypal *" ∷ "inv#" ∷ "invoice " ∷ []

-- each prefix is taken away once, in this order
abbrev without_prefixes : List String → String → String
without_prefixes [] desc = desc
without_prefixes (prefix ∷ prefixes) desc = without_prefixes prefixes (remove_prefix prefix desc)

abbrev first_category : String → Dict String → String
first_category vendor [] = "Other"
first_category vendor ((keyword, category) ∷ rest) =
    let later = first_category vendor rest in if has_part keyword vendor then category else later

module _ ⦃p : Platform⦄ where
  open p use {Float}

  pub record Invoice : Type 0 where
    pub vendor : String
    pub amount : Float
    pub date : String
    pub category : String
    pub raw_description : String

  -- An invoice as it comes: a dict of JSON values.
  abbrev pub Raw : Type 0
  Raw = Dict (Value Float)

  pub normalize_vendor : String → String
  normalize_vendor description =
      let desc = without_prefixes noise_prefixes (p.strip (p.lower description)) in
      let short = p.substitute "\\s+\\d{4,}.*$" "" desc in
      let undated = p.substitute "\\s+\\d{2}/\\d{2}.*$" "" short in
      let unnumbered = p.substitute "\\s+#\\d+.*$" "" undated in
      p.strip (p.substitute "\\s+" " " unnumbered)

  pub categorize_vendor : String → String
  categorize_vendor vendor = first_category (p.lower vendor) category_map

  -- `str(value)`
  abbrev text_of : Value Float → String
  text_of (str s) = s
  text_of v = p.str_value v

  -- `str(raw.get(key, "")).strip()`
  abbrev field_text : String → Raw → String
  field_text key raw = p.strip (elim (get key raw) [ none ↦ "" | some v ↦ text_of v ])

  abbrev float_text : String → Result Float
  float_text s = elim (p.parse_float s) [ none ↦ err value_error | some x ↦ ok x ]

  abbrev negated : Result Float → Result Float
  negated (ok x) = ok (p.neg x)
  negated (err x) = err x

  -- `_parse_amount`
  pub parse_amount : String → Result Float
  parse_amount amount =
      let s = without_char 44 (without_char 36 (p.strip amount)) in
      if str_eq s "" || str_eq s "--"
      then ok (p.of_ℕ 0)
      else if starts_with "(" s && ends_with ")" s
      then negated (float_text (inner s))
      else float_text s

  abbrev amount_of : Value Float → Result Float
  amount_of (str s) = parse_amount s
  amount_of v = float_of v

  abbrev amount_value : Option (Value Float) → Value Float
  amount_value none = int 0
  amount_value (some v) = v

  abbrev text_or : String → String → String
  text_or s other = if str_eq s "" then other else s

  unfoldable pub parse_invoice : Raw → Adapter Invoice
  parse_invoice raw = do
    let raw_description = field_text "description" raw
    let vendor = text_or (field_text "vendor" raw) (normalize_vendor raw_description)
    amount ← lift (amount_of (amount_value (get "amount" raw)))
    date ← parse_date_iso (some (field_text "date" raw))
    pure (record {
      vendor = vendor;
      amount = p.abs amount;
      date = date;
      category = text_or (field_text "category" raw) (categorize_vendor vendor);
      raw_description = raw_description;
    })

  unfoldable pub parse_all : List Raw → Adapter (List Invoice)
  parse_all [] = pure []
  parse_all (raw ∷ raws) = do inv ← parse_invoice raw; rest ← parse_all raws; pure (inv ∷ rest)

  -- The edge of an invoice; what only other readers of the record use is left out.
  abbrev pub edge_item : Invoice → Item
  edge_item inv =
      paid_edge (concat ("vendor:" ∷ inv.vendor ∷ [])) inv.amount inv.date (some inv.category) none

  -- the loop of `ingest_to_graph_records` on parsed invoices
  unfoldable pub records_from : List String → List Invoice → List Item
  records_from seen [] = []
  records_from seen (inv ∷ invs) =
      let old = records_from seen invs in
      let new = records_from (inv.vendor ∷ seen) invs in
      if member inv.vendor seen
      then edge_item inv ∷ old
      else vendor_node inv.vendor (some inv.category) ∷ edge_item inv ∷ new

  unfoldable pub ingest_to_graph_records : List Raw → Adapter (List Item)
  ingest_to_graph_records raws = parse_all raws >>= λ invs. pure (records_from [] invs)

  unfoldable pub build_graph_from_invoices : List Raw → ℕ → Result Graph
  build_graph_from_invoices raws tick = elim (ingest_to_graph_records raws tick).0 [
    | err x ↦ err x
    | ok items ↦
        let (loaded, g) = load_records items empty in elim loaded [ err x ↦ err x | ok _ ↦ ok g ]
  ]
