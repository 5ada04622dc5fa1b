-- ===== src/Graph/Loading.antt =====
-- Loading records into the graph (gbrain/knowledge_graph.py).
use nemoclaw_smb.Base.{◌≡◌, refl, List, [], ◌∷◌, arith, remove_prefix}
use nemoclaw_smb.Base.Act.{ok}
use nemoclaw_smb.Platform.{Platform}
use nemoclaw_smb.Graph.{
  Graph, Item, add_vendor, label_of, load_record, load_records, other_item, paid_edge, vendor_node,
}
use nemoclaw_smb.Graph.History.{IsValid, added-IsValid, record_payment_lem}

module _ ⦃p : Platform⦄ where
  pub load_record_lem :
      (item : Item) (g : Graph)
      → IsValid g
      → (g' : Graph) × (load_record item g ≡ (ok tt, g')) × IsValid g'
  unfolding load_record
  load_record_lem (vendor_node label category) g v =
      (add_vendor label category g, refl, added-IsValid label category g v)
  load_record_lem (paid_edge target amount date category flag) g v =
      let (g', done, valid, _, _, _, _) =
        record_payment_lem (label_of (remove_prefix "vendor:" target) g) amount date category flag g
          v in
      (g', done, valid)
  load_record_lem other_item g v = (g, refl, v)

  -- Whatever records are loaded into a valid graph, in whatever order, also payments to vendors that no
  -- record has named: loading does not fail, and the graph stays valid.
  pub load_records_lem :
      (items : List Item) (g : Graph)
      → IsValid g
      → (g' : Graph) × (load_records items g ≡ (ok tt, g')) × IsValid g'
  unfolding load_records
  load_records_lem [] g v = (g, refl, v)
  load_records_lem (item ∷ items) g v =
      let (g1, first, v1) = load_record_lem item g v in
      let (g', rest, v') = load_records_lem items g1 v1 in (g', ground arith, v')
