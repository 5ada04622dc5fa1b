-- ===== src/Invoices/Payments.antt =====
-- Which payments the graph of a list of invoices has (gbrain/invoice_ingestion.py,
-- gbrain/knowledge_graph.py).
use Prim.Native.String.{◌++◌ as str_append}
use text.Mathlib.TextLemmas.{append-nil, cons-append, nil-append}
use mathlib.Core.Path.{subst}
use nemoclaw_smb.Base.{
  ℕ, ◌+◌, ◌≡◌, ◌⊎◌, ◌&&◌, Option-cases, refl, sym, ap, ◌∙◌, String, Bool, Option, none, some, List,
  [], ◌∷◌, ◌++◌, Bool-cases, arith, concat, inl, inr, member, after_prefix, remove_prefix, str_eq,
  str_eq_iff, if◌then◌else◌,
}
use nemoclaw_smb.Base.Counts.{count, count-append, count-sort}
use nemoclaw_smb.Base.Dict.{contains, get, get-put}
use nemoclaw_smb.Base.Act.{Error, Result-cases, err, ok}
use nemoclaw_smb.Platform.{Platform}
use nemoclaw_smb.Graph.{
  Edge, Graph, Item, Vendor, add_vendor, by_date, category_or, known_category, empty, label_of,
  load_record, load_records, normalize_name, record_payment, vendor_node, edges_of, edge_of,
  ensured,
}
use nemoclaw_smb.Graph.History.{
  edges_of_with, IsValid, added-IsValid, empty-IsValid, record_payment_lem,
}
use nemoclaw_smb.Invoices.{
  Invoice, Raw, build_graph_from_invoices, edge_item, ingest_to_graph_records, parse_all,
  records_from,
}

after_prefix-append : (q s : String) → after_prefix q (str_append q s) ≡ some s
unfolding after_prefix
after_prefix-append String.[] s = ap some (nil-append s)
after_prefix-append (String.◌∷◌ c q) s =
    rw (cons-append c q s, after_prefix) (ground (arith, after_prefix-append q s))

module _ ⦃p : Platform⦄ where
  -- How many payments under a key have such an amount and date, and how many invoices of the vendor.
  abbrev pub payments_at : (p.Float → String → Bool) → String → Graph → ℕ
  payments_at test k g = count (λ (e : Edge). test e.amount e.date) (edges_of k g)

  abbrev pub billed : (p.Float → String → Bool) → String → List Invoice → ℕ
  billed test k invs =
      count (λ (inv : Invoice). str_eq (normalize_name inv.vendor) k && test inv.amount inv.date)
        invs

  -- The label of a vendor spells the key that it is stored under.
  abbrev IsLabelled : Graph → Type 0
  IsLabelled g = (k : String) (v : Vendor) → get k g.vendors ≡ some v → normalize_name v.label ≡ k

  added-IsLabelled :
      (name : String) (category : Option String) (g : Graph)
      → IsLabelled g
      → IsLabelled (add_vendor name category g)
  unfolding add_vendor
  added-IsLabelled name category g labelled k v there =
      let key = normalize_name name in
      let new : Vendor = record {
        label = name;
        category = category_or category (known_category key g);
      } in
      elim (Bool-cases (str_eq key k)) [
        | inl own ↦ ground (arith, get-put key k new g.vendors, str_eq_iff key k)
        | inr other ↦ labelled k v (ground (arith, get-put key k new g.vendors))
      ]

  ensured-IsLabelled :
      (name : String) (category : Option String) (g : Graph)
      → IsLabelled g
      → IsLabelled (ensured name category g)
  ensured-IsLabelled name category g labelled k v there =
      elim (Bool-cases (contains (normalize_name name) g.vendors)) [
        | inl known ↦ labelled k v (ground arith)
        | inr new ↦ added-IsLabelled name category g labelled k v (ground arith)
      ]

  vendors-record_payment :
      (vendor : String) (amount : p.Float) (date : String) (category : Option String)
      (flag : Option Bool) (g g' : Graph)
      → record_payment vendor amount date category flag g ≡ (ok tt, g')
      → g'.vendors ≡ (ensured vendor category g).vendors
  unfolding record_payment
  vendors-record_payment vendor amount date category flag g g' h =
      elim (Option-cases (get (normalize_name vendor) (ensured vendor category g).payments)) [
        | inl missing ↦ ground arith
        | inr (edges, there) ↦ ground arith
      ]

  payments_at-record_payment :
      (vendor : String) (amount : p.Float) (date : String) (category : Option String)
      (flag : Option Bool) (g : Graph)
      → IsValid g
      → IsLabelled g
      → (g' : Graph) × (record_payment vendor amount date category flag g ≡ (ok tt, g'))
        × IsValid g'
        × IsLabelled g'
        × ((test : p.Float → String → Bool) (k : String)
            → payments_at test k g'
              ≡ (if str_eq (normalize_name vendor) k && test amount date then 1 else 0)
                + payments_at test k g)
  unfolding count
  payments_at-record_payment vendor amount date category flag g valid labelled =
      let key = normalize_name vendor in
      let edge = edge_of key amount date category flag (ensured vendor category g) in
      let (g', done, valid', _, own, _, others) =
        record_payment_lem vendor amount date category flag g valid in
      (
        g',
        done,
        valid',
        λ j v there. ensured-IsLabelled vendor category g labelled j v (
            sym (ap (get j) (vendors-record_payment vendor amount date category flag g g' done))
            ∙ there),
        λ test k. elim (Bool-cases (str_eq key k)) [
          | inl same ↦ ground (
            arith,
            own,
            str_eq_iff key k,
            count-sort (λ e. test e.amount e.date) by_date (edges_of key g ++ (edge ∷ [])),
            count-append (λ (e : Edge). test e.amount e.date) (edges_of key g) (edge ∷ []),
          )
          | inr other ↦ ground (arith, others k other)
        ],
      )

  payments_at-added :
      (test : p.Float → String → Bool) (k name : String) (category : Option String) (g : Graph)
      → payments_at test k (add_vendor name category g) ≡ payments_at test k g
  unfolding add_vendor
  payments_at-added test k name category g =
      let added = add_vendor name category g in
      ap (count (λ (e : Edge). test e.amount e.date))
        (edges_of_with (normalize_name name) k added.vendors g.vendors g.payments)

  -- Vendors' names are normalized once and for all.
  module _ (idempotent : (s : String) → normalize_name (normalize_name s) ≡ normalize_name s) where
    label_of_lem :
        (v : String) (g : Graph) → IsLabelled g → normalize_name (label_of v g) ≡ normalize_name v
    label_of_lem v g labelled = elim (Option-cases (get v g.vendors)) [
      | inl missing ↦ ground arith
      | inr (vendor, there) ↦
          let spelled = labelled v vendor there in ground (arith, idempotent vendor.label)
    ]

    remove_prefix-concat : (v : String) → remove_prefix "vendor:" (concat ("vendor:" ∷ v ∷ [])) ≡ v
    remove_prefix-concat v =
        ground (arith, after_prefix-append "vendor:" (str_append v ""), append-nil v)

    -- What loading the records of invoices into a graph does.
    abbrev Loads : List Item → List Invoice → Graph → Type 0
    Loads items invs g =
        (g' : Graph) × (load_records items g ≡ (ok tt, g'))
        × IsValid g'
        × IsLabelled g'
        × ((test : p.Float → String → Bool) (k : String)
            → payments_at test k g' ≡ billed test k invs + payments_at test k g)

    edge_item-Loads :
        (inv : Invoice) (invs : List Invoice) (items : List Item) (g : Graph)
        → IsValid g
        → IsLabelled g
        → ((g1 : Graph) → IsValid g1 → IsLabelled g1 → Loads items invs g1)
        → Loads (edge_item inv ∷ items) (inv ∷ invs) g
    unfolding load_records load_record count
    edge_item-Loads inv invs items g valid labelled rest =
        let name = label_of inv.vendor g in
        let (g1, done, valid1, labelled1, counted) =
          payments_at-record_payment name inv.amount inv.date (some inv.category) none g valid
            labelled in
        let (g', loaded, valid', labelled', more) = rest g1 valid1 labelled1 in
        (
          g',
          ground (arith, remove_prefix-concat inv.vendor),
          valid',
          labelled',
          λ test k.
              omega (arith, more test k, rw (label_of_lem inv.vendor g labelled) at counted test k),
        )

    node-Loads :
        (name : String) (category : Option String) (items : List Item) (invs : List Invoice)
        (g : Graph)
        → IsValid g
        → IsLabelled g
        → ((g1 : Graph) → IsValid g1 → IsLabelled g1 → Loads items invs g1)
        → Loads (vendor_node name category ∷ items) invs g
    unfolding load_records load_record
    node-Loads name category items invs g valid labelled rest =
        let (g', loaded, valid', labelled', more) =
          rest (add_vendor name category g) (added-IsValid name category g valid)
            (added-IsLabelled name category g labelled) in
        (
          g',
          loaded,
          valid',
          labelled',
          λ test k. omega (arith, more test k, payments_at-added test k name category g),
        )

    records_from-Loads :
        (invs : List Invoice) (seen : List String) (g : Graph)
        → IsValid g
        → IsLabelled g
        → Loads (records_from seen invs) invs g
    unfolding load_records records_from count
    records_from-Loads [] seen g valid labelled = (g, refl, valid, labelled, λ test k. omega arith)
    records_from-Loads (inv ∷ invs) seen g valid labelled =
        let old = records_from seen invs in
        let new = records_from (inv.vendor ∷ seen) invs in
        let node = vendor_node inv.vendor (some inv.category) in
        let choice = λ (b : Bool). if b then edge_item inv ∷ old else node ∷ edge_item inv ∷ new in
        elim (Bool-cases (member inv.vendor seen)) [
          | inl known ↦
              subst (λ b. Loads (choice b) (inv ∷ invs) g) (sym known)
                (edge_item-Loads inv invs old g valid labelled (records_from-Loads invs seen))
          | inr unseen ↦
              subst (λ b. Loads (choice b) (inv ∷ invs) g) (sym unseen)
                (node-Loads inv.vendor (some inv.category) (edge_item inv ∷ new) (inv ∷ invs) g
                  valid labelled
                  (λ g1 valid1 labelled1.
                    edge_item-Loads inv invs new g1 valid1 labelled1
                      (records_from-Loads invs (inv.vendor ∷ seen))))
        ]

    -- If normalizing a name twice is normalizing it once, then building the graph of a list of invoices
    -- fails only where an invoice cannot be parsed, and then with the same exception. Otherwise the graph
    -- is valid and has as payments exactly the invoices: under the normalized name of each vendor, of
    -- whatever amounts and dates there are as many payments as invoices of the vendor.
    pub build_graph_from_invoices_lem :
        (raws : List Raw) (tick : ℕ)
        → ((x : Error) × ((parse_all raws tick).0 ≡ err x)
            × (build_graph_from_invoices raws tick ≡ err x))
          ⊎ ((invs : List Invoice) × (g : Graph) × ((parse_all raws tick).0 ≡ ok invs)
              × (build_graph_from_invoices raws tick ≡ ok g)
              × IsValid g
              × ((test : p.Float → String → Bool) (k : String)
                  → payments_at test k g ≡ billed test k invs))
    unfolding build_graph_from_invoices ingest_to_graph_records count get
    build_graph_from_invoices_lem raws tick = elim (Result-cases (parse_all raws tick)) [
      | inr (x, later, failed) ↦ inl (x, ap (λ r. r.0) failed, ground arith)
      | inl (invs, later, parsed) ↦
          let (g, loaded, valid, _, counted) =
            records_from-Loads invs [] empty empty-IsValid (λ k v there. cc there) in
          inr (
            invs,
            g,
            ap (λ r. r.0) parsed,
            ground arith,
            valid,
            λ test k. omega (arith, counted test k),
          )
    ]
