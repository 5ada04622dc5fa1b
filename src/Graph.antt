-- ===== src/Graph.antt =====
-- The vendor knowledge graph (gbrain/knowledge_graph.py). The copies that go to a GBrain server are
-- left out: every failure of theirs is swallowed, and nothing is read back.
pub mod History
pub mod Loading
use nemoclaw_smb.Base.{
  ℕ, ◌<◌, String, Bool, true, false, not, Option, none, some, List, [], ◌∷◌, ◌++◌, map, str_eq,
  str_le, remove_prefix, sort, length, ltb, if◌then◌else◌,
}
use nemoclaw_smb.Base.Dict.{Dict, get, put, contains}
use nemoclaw_smb.Base.Act.{Act, Result, ok, err, key_error}
use nemoclaw_smb.Platform.{Platform}

module _ ⦃p : Platform⦄ where
  open p use {Float}

  -- The `id` and the `type` of a vendor, and both ends of an edge, follow from the key and are left out.
  pub record Vendor : Type 0 where
    pub label : String
    pub category : String

  pub record Edge : Type 0 where
    pub amount : Float
    pub date : String
    pub category : String
    pub anomaly_flag : Option Bool

  pub record Graph : Type 0 where
    pub vendors : Dict Vendor
    pub payments : Dict (List Edge)

  abbrev pub empty : Graph
  empty = record { vendors = []; payments = [] }

  unfoldable pub normalize_name : String → String
  normalize_name name = p.strip (p.lower name)

  -- `first or second or "Other"`: an empty text counts as none.
  abbrev pub text_or : Option String → String → String
  text_or none other = other
  text_or (some s) other = if str_eq s "" then other else s

  abbrev pub category_or : Option String → Option String → String
  category_or first second = text_or first (text_or second "Other")

  abbrev pub known_category : String → Graph → Option String
  known_category key g = elim (get key g.vendors) [ none ↦ none | some v ↦ some v.category ]

  -- `self._payments.setdefault(key, [])`
  abbrev pub with_edges : String → Dict (List Edge) → Dict (List Edge)
  with_edges key payments = if contains key payments then payments else put key [] payments

  unfoldable pub add_vendor : String → Option String → Graph → Graph
  add_vendor name category g =
      let key = normalize_name name in
      record {
        vendors =
            put key
              (record { label = name; category = category_or category (known_category key g) })
              g.vendors;
        payments = with_edges key g.payments;
      }

  abbrev pub by_date : Edge → Edge → Bool
  by_date e f = str_le e.date f.date

  abbrev pub ensured : String → Option String → Graph → Graph
  ensured vendor category g =
      if contains (normalize_name vendor) g.vendors then g else add_vendor vendor category g

  abbrev pub edge_of : String → Float → String → Option String → Option Bool → Graph → Edge
  edge_of key amount date category flag g = record {
    amount = amount;
    date = date;
    category = category_or category (known_category key g);
    anomaly_flag = flag;
  }

  -- `self._payments[key]` raises where the key is missing.
  unfoldable pub record_payment :
      String → Float → String → Option String → Option Bool → Act Graph (Unit {0})
  record_payment vendor amount date category flag g =
      let key = normalize_name vendor in
      let g1 = ensured vendor category g in
      elim (get key g1.payments) [
        | none ↦ (err key_error, g1)
        | some edges ↦ (
          ok tt,
          record g1 {
            payments =
                put key (sort by_date (edges ++ (edge_of key amount date category flag g1 ∷ [])))
                  g1.payments;
          },
        )
      ]

  unfoldable pub is_known_vendor : String → Graph → Bool
  is_known_vendor name g = contains (normalize_name name) g.vendors

  abbrev pub edges_of : String → Graph → List Edge
  edges_of key g = elim (get key g.payments) [ none ↦ [] | some es ↦ es ]

  unfoldable pub vendor_history : String → Graph → List Float
  vendor_history name g = map (λ (e : Edge). e.amount) (edges_of (normalize_name name) g)

  -- A record of gbrain/invoice_ingestion.py: a vendor node, a paid edge, or anything else.
  pub data Item : Type 0 where
    vendor_node : String → Option String → Item
    paid_edge : String → Float → String → Option String → Option Bool → Item
    other_item : Item

  -- The label of a vendor that is stored under a key, and otherwise the key.
  abbrev pub label_of : String → Graph → String
  label_of key g = elim (get key g.vendors) [
    | none ↦ key
    | some v ↦ if str_eq v.label "" then key else v.label
  ]

  -- one step of `load_records`
  unfoldable pub load_record : Item → Act Graph (Unit {0})
  load_record (vendor_node label category) g = (ok tt, add_vendor label category g)
  load_record (paid_edge target amount date category flag) g =
      record_payment (label_of (remove_prefix "vendor:" target) g) amount date category flag g
  load_record other_item g = (ok tt, g)

  unfoldable pub load_records : List Item → Act Graph (Unit {0})
  load_records [] g = (ok tt, g)
  load_records (item ∷ items) g =
      let (r, g') = load_record item g in
      elim r [ err x ↦ (err x, g') | ok _ ↦ load_records items g' ]

  -- `expected_range`: the mean with two standard deviations of the sample on either side
  pub expected_range : String → Graph → Option (Float × Float)
  expected_range name g = elim (vendor_history name g) [
    | [] ↦ none
    | _ ∷ [] ↦ none
    | x ∷ y ∷ rest ↦
        let amounts = x ∷ y ∷ rest in
        let spread = p.mul (p.of_ℕ 2) (p.stdev amounts) in
        some (p.sub (p.mean amounts) spread, p.add (p.mean amounts) spread)
  ]
