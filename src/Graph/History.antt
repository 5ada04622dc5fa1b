-- ===== src/Graph/History.antt =====
-- How a payment changes the graph (gbrain/knowledge_graph.py).
use nemoclaw_smb.Base.{
  suc, ◌≡◌, inl, inr, sym, ap, ◌∙◌, String, Bool, true, false, Option, List, [], ◌∷◌, ◌++◌, arith,
  str_eq, str_eq_iff, str_le_total, sort, length, length-append, length-sort, length-map, IsSorted,
  sort-IsSorted, Bool-cases, if◌then◌else◌,
}
use mathlib.Core.Path.{subst}
use nemoclaw_smb.Base.Dict.{Dict, get, put, contains, get-put, contains-put, get_of_contains}
use nemoclaw_smb.Base.Act.{ok}
use nemoclaw_smb.Platform.{Platform}
use nemoclaw_smb.Graph.{
  Vendor, Edge, Graph, normalize_name, add_vendor, by_date, ensured, with_edges, category_or,
  known_category, edge_of, record_payment, is_known_vendor, edges_of, vendor_history, empty,
}

module _ ⦃p : Platform⦄ where
  -- Every vendor has its list of payments, in the order of their dates.
  pub record IsValid (g : Graph) : Type 0 where
    pub listed : (k : String) → contains k g.vendors ≡ true → contains k g.payments ≡ true
    pub ordered : (k : String) → IsSorted by_date (edges_of k g)

  pub empty-IsValid : IsValid empty
  unfolding contains get
  empty-IsValid = record { listed = λ k h. cc h; ordered = λ k. tt }

  with_edges_lem :
      (key k : String) (payments : Dict (List Edge))
      → contains k (with_edges key payments) ≡ (if str_eq key k then true else contains k payments)
  with_edges_lem key k payments = ground (arith, contains-put key k [] payments, str_eq_iff key k)

  pub edges_of_with :
      (key k : String) (vendors vendors' : Dict Vendor) (payments : Dict (List Edge))
      → edges_of k (record { vendors = vendors; payments = with_edges key payments })
        ≡ edges_of k (record { vendors = vendors'; payments = payments })
  unfolding contains
  edges_of_with key k vendors vendors' payments =
      ground (arith, get-put key k [] payments, str_eq_iff key k)

  pub added-IsValid :
      (vendor : String) (category : Option String) (g : Graph)
      → IsValid g
      → IsValid (add_vendor vendor category g)
  unfolding add_vendor
  added-IsValid vendor category g v =
      let key = normalize_name vendor in
      record {
        listed = λ k h. ground (
          arith,
          with_edges_lem key k g.payments,
          contains-put key k
              (record { label = vendor; category = category_or category (known_category key g) })
              g.vendors,
          v.listed k,
        );
        ordered = λ k.
            subst (IsSorted by_date)
              (sym (
                edges_of_with key k
                  (put key
                    (record {
                      label = vendor;
                      category = category_or category (known_category key g);
                    })
                    g.vendors)
                  g.vendors g.payments))
              (v.ordered k);
      }

  ensured-IsValid :
      (vendor : String) (category : Option String) (g : Graph)
      → IsValid g
      → IsValid (ensured vendor category g)
  unfolding add_vendor
  ensured-IsValid vendor category g v =
      let key = normalize_name vendor in
      elim (Bool-cases (contains key g.vendors)) [
        | inl e ↦ subst IsValid (ground arith) v
        | inr e ↦ subst IsValid (ground arith) (added-IsValid vendor category g v)
      ]

  edges_of-ensured :
      (vendor : String) (category : Option String) (g : Graph) (k : String)
      → edges_of k (ensured vendor category g) ≡ edges_of k g
  unfolding add_vendor
  edges_of-ensured vendor category g k =
      elim (Bool-cases (contains (normalize_name vendor) g.vendors)) [
        | inl e ↦ ground arith
        | inr e ↦ ground (
          arith,
          edges_of_with (normalize_name vendor) k
              (put (normalize_name vendor)
                (record {
                  label = vendor;
                  category = category_or category (known_category (normalize_name vendor) g);
                })
                g.vendors)
              g.vendors g.payments,
        )
      ]

  ensured_known :
      (vendor : String) (category : Option String) (g : Graph)
      → contains (normalize_name vendor) (ensured vendor category g).vendors ≡ true
  unfolding add_vendor
  ensured_known vendor category g =
      let key = normalize_name vendor in
      elim (Bool-cases (contains key g.vendors)) [
        | inl e ↦ ground arith
        | inr e ↦ ground (
          arith,
          contains-put key key
              (record { label = vendor; category = category_or category (known_category key g) })
              g.vendors,
          str_eq_iff key key,
        )
      ]

  -- On a valid graph a payment is always recorded. The graph stays valid and then knows the
  -- vendor, whose payments are those before and the new one at the end, sorted by their dates, so
  -- its history is one longer; and the payments under every other key are as before.
  pub record_payment_lem :
      (vendor : String) (amount : p.Float) (date : String) (category : Option String)
      (flag : Option Bool) (g : Graph)
      → IsValid g
      → let key = normalize_name vendor in
        let edge = edge_of key amount date category flag (ensured vendor category g) in
        (g' : Graph) × (record_payment vendor amount date category flag g ≡ (ok tt, g'))
        × IsValid g'
        × (is_known_vendor vendor g' ≡ true)
        × (edges_of key g' ≡ sort by_date (edges_of key g ++ (edge ∷ [])))
        × (length (vendor_history vendor g') ≡ suc (length (vendor_history vendor g)))
        × ((k : String) → str_eq key k ≡ false → edges_of k g' ≡ edges_of k g)
  unfolding record_payment is_known_vendor vendor_history
  record_payment_lem vendor amount date category flag g v =
      let key = normalize_name vendor in
      let g1 = ensured vendor category g in
      let v1 = ensured-IsValid vendor category g v in
      let (edges, e) =
        get_of_contains key g1.payments (v1.listed key (ensured_known vendor category g)) in
      let new = sort by_date (edges ++ (edge_of key amount date category flag g1 ∷ [])) in
      let g' : Graph = record g1 { payments = put key new g1.payments } in
      let same = edges_of-ensured vendor category g key in
      let own : edges_of key g' ≡ new =
        ground (arith, get-put key key new g1.payments, str_eq_iff key key) in
      let before : edges_of key g ≡ edges = ground arith in
      (
        g',
        ground arith,
        record {
          listed = λ k h. ground (arith, contains-put key k new g1.payments, v1.listed k);
          ordered = λ k. elim (Bool-cases (str_eq key k)) [
            | inl e1 ↦ subst (IsSorted by_date) (ground (arith, get-put key k new g1.payments)) (
                sort-IsSorted by_date (λ a b. str_le_total a.date b.date)
                  (edges ++ (edge_of key amount date category flag g1 ∷ [])))
            | inr e1 ↦
                subst (IsSorted by_date) (ground (arith, get-put key k new g1.payments))
                  (v1.ordered k)
          ];
        },
        ensured_known vendor category g,
        own
            ∙ ap
                (λ (es : List Edge).
                  sort by_date (es ++ (edge_of key amount date category flag g1 ∷ [])))
                (sym before),
        ground (
          arith,
          length-map (edges_of key g') (λ (e : Edge). e.amount),
          length-map (edges_of key g) (λ (e : Edge). e.amount),
          length-sort by_date (edges ++ (edge_of key amount date category flag g1 ∷ [])),
          length-append edges (edge_of key amount date category flag g1 ∷ []),
        ),
        λ k other.
            ground (arith, get-put key k new g1.payments, edges_of-ensured vendor category g k),
      )
