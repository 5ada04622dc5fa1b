-- ===== src/Anomaly/Grouped.antt =====
-- The invoices of each vendor, as a scan groups them (gbrain/anomaly_detector.py).
use nemoclaw_smb.Base.{
  ◌≡◌, refl, sym, ◌∙◌, String, none, some, List, [], ◌∷◌, ◌++◌, arith, All, Bool-cases, inl, inr,
  str_eq, str_eq_iff, if◌then◌else◌,
}
use mathlib.Core.List.{append-nil, append_assoc}
use nemoclaw_smb.Base.Dict.{Dict, get, get-put, put}
use nemoclaw_smb.Base.Members.{All-imp}
use nemoclaw_smb.Platform.{Platform}
use nemoclaw_smb.Anomaly.{Invoice, by_vendor, invoices_of}

module _ {V : Type 0} where
  -- No key stands in a dict twice.
  abbrev IsDistinct : Dict V → Type 0
  IsDistinct [] = Unit
  IsDistinct ((k, _) ∷ d) = (get k d ≡ none) × IsDistinct d

  put-IsDistinct : (k : String) (v : V) (d : Dict V) → IsDistinct d → IsDistinct (put k v d)
  unfolding put get
  put-IsDistinct k v [] h = (refl, tt)
  put-IsDistinct k v ((j, w) ∷ d) (new, h) = elim (Bool-cases (str_eq j k)) [
    | inl same ↦ rw (same, put) (new, h)
    | inr other ↦
        rw (other, put)
          (ground (arith, get-put k j v d, str_eq_iff k j, str_eq_iff j k), put-IsDistinct k v d h)
  ]

  -- Each entry is what `get` finds.
  entries_found : (d : Dict V) → IsDistinct d → All (λ (e : String × V). get e.0 d ≡ some e.1) d
  unfolding get
  entries_found [] h = tt
  entries_found ((k, v) ∷ d) (new, h) = (
    ground (arith, str_eq_iff k k),
    All-imp (λ (e : String × V). get e.0 d ≡ some e.1)
        (λ (e : String × V). get e.0 ((k, v) ∷ d) ≡ some e.1) d
        (λ e found. ground (arith, str_eq_iff k e.0)) (entries_found d h),
  )

module _ ⦃p : Platform⦄ where
  -- The invoices of a vendor, in the given order.
  abbrev pub of_vendor : String → List Invoice → List Invoice
  of_vendor vendor [] = []
  of_vendor vendor (inv ∷ invs) =
      let rest = of_vendor vendor invs in if str_eq inv.vendor vendor then inv ∷ rest else rest

  by_vendor-IsDistinct :
      (invs : List Invoice) (d : Dict (List Invoice)) → IsDistinct d → IsDistinct (by_vendor invs d)
  unfolding by_vendor
  by_vendor-IsDistinct [] d h = h
  by_vendor-IsDistinct (inv ∷ invs) d h =
      by_vendor-IsDistinct invs (put inv.vendor (invoices_of inv.vendor d ++ (inv ∷ [])) d)
        (put-IsDistinct inv.vendor (invoices_of inv.vendor d ++ (inv ∷ [])) d h)

  invoices_of-by_vendor :
      (v : String) (invs : List Invoice) (d : Dict (List Invoice))
      → invoices_of v (by_vendor invs d) ≡ invoices_of v d ++ of_vendor v invs
  unfolding by_vendor
  invoices_of-by_vendor v [] d = sym (append-nil (invoices_of v d))
  invoices_of-by_vendor v (inv ∷ invs) d =
      let more = invoices_of inv.vendor d ++ (inv ∷ []) in
      invoices_of-by_vendor v invs (put inv.vendor more d)
      ∙ ground (
        arith,
        get-put inv.vendor v more d,
        str_eq_iff inv.vendor v,
        append_assoc (invoices_of v d) (inv ∷ []) (of_vendor v invs),
      )

  pub invoices_of-grouped :
      (v : String) (invs : List Invoice) → invoices_of v (by_vendor invs []) ≡ of_vendor v invs
  unfolding get
  invoices_of-grouped v invs = invoices_of-by_vendor v invs []

  pub grouped-All :
      (invs : List Invoice)
      → All (λ (e : String × List Invoice). e.1 ≡ of_vendor e.0 invs) (by_vendor invs [])
  grouped-All invs =
      let d = by_vendor invs [] in
      All-imp (λ (e : String × List Invoice). get e.0 d ≡ some e.1)
        (λ (e : String × List Invoice). e.1 ≡ of_vendor e.0 invs) d
        (λ e found. ground (arith, invoices_of-grouped e.0 invs))
        (entries_found d (by_vendor-IsDistinct invs [] tt))
