-- ===== src/Anomaly/Flagged.antt =====
-- What a scan reports (gbrain/anomaly_detector.py).
use mathlib.Core.Path.{subst}
use nemoclaw_smb.Base.{
  ◌≤◌, ◌≡◌, ◌⊎◌, ◌↔◌, refl, sym, ap, ◌∙◌, String, true, List, [], ◌∷◌, ◌++◌, arith, length,
  length-append, map, sort, All, Bool-cases, Option-cases, inl, inr, some, str_eq, str_eq_iff,
  sort-All, if◌then◌else◌,
}
use mathlib.Core.List.{append-nil, append_assoc}
use nemoclaw_smb.Base.Dict.{Dict, get}
use nemoclaw_smb.Base.Members.{All-imp, Among, Any, sort-Any}
use nemoclaw_smb.Platform.{Platform}
use nemoclaw_smb.Anomaly.{
  Anomaly, Invoice, add_flagged, by_vendor, by_date, by_z, min_pct_change, raw_pct, raw_z, scan,
  scan_groups, scan_vendor, score_invoice,
}
use nemoclaw_smb.Anomaly.Grouped.{grouped-All, invoices_of-grouped, of_vendor}

module _ {A : Type 0} (P : A → Type 0) where
  All-append : (xs ys : List A) → All P xs → All P ys → All P (xs ++ ys)
  All-append [] ys _ k = k
  All-append (x ∷ xs) ys (px, h) k = (px, All-append xs ys h k)

  Any-append : (xs ys : List A) → Any P xs ⊎ Any P ys → Any P (xs ++ ys)
  Any-append [] ys (inl h) = absurd h
  Any-append [] ys (inr k) = k
  Any-append (x ∷ xs) ys (inl (inl px)) = inl px
  Any-append (x ∷ xs) ys (inl (inr h)) = inr (Any-append xs ys (inl h))
  Any-append (x ∷ xs) ys (inr k) = inr (Any-append xs ys (inr k))

  Among-All : (xs : List A) (x : A) → Among xs x → All P xs → P x
  Among-All [] x there all = absurd there
  Among-All (y ∷ ys) x (inl same) (py, all) = subst P (sym same) py
  Among-All (y ∷ ys) x (inr there) (py, all) = Among-All ys x there all

module _ ⦃p : Platform⦄ where
  abbrev pub amounts : List Invoice → List p.Float
  amounts invs = map (λ (i : Invoice). i.amount) invs

  -- An amount that stands out from two or more earlier ones, by its z-score and by the least change.
  abbrev pub IsOutlier : p.Float → p.Float → List p.Float → Type 0
  IsOutlier z_threshold amount history =
      (2 ≤ length history)
      × (p.lt z_threshold (p.abs (raw_z amount history)) ≡ true)
      × (p.le min_pct_change (p.abs (raw_pct amount history)) ≡ true)

  -- The score of an invoice that stands out from those before it in a list.
  abbrev pub IsScored : p.Float → String → List Invoice → Anomaly → Type 0
  IsScored z_threshold vendor all a =
      (earlier : List Invoice) × (inv : Invoice) × (later : List Invoice) × (all
        ≡ earlier ++ (inv ∷ later))
      × (a ≡ score_invoice vendor inv.amount (amounts earlier) z_threshold)
      × IsOutlier z_threshold inv.amount (amounts earlier)

  -- The same, in the invoices of one vendor by their dates.
  abbrev pub IsFlagged : p.Float → List Invoice → Anomaly → Type 0
  IsFlagged z_threshold invoices a =
      (vendor : String) × IsScored z_threshold vendor (sort by_date (of_vendor vendor invoices)) a

  module _ (z_threshold : p.Float) (vendor : String) where
    score_invoice_flag :
        (amount : p.Float) (history : List p.Float)
        → ((score_invoice vendor amount history z_threshold).is_anomaly ≡ true)
          ↔ IsOutlier z_threshold amount history
    unfolding score_invoice
    score_invoice_flag amount [] = (λ h. cc h, λ (few, _, _). absurd (omega arith))
    score_invoice_flag amount (x ∷ []) = (λ h. cc h, λ (few, _, _). absurd (omega arith))
    score_invoice_flag amount (x ∷ y ∷ rest) =
        (λ h. (omega arith, ground arith, ground arith), λ (few, far, material). ground arith)

    add_flagged-All :
        (P : Anomaly → Type 0) (a : Anomaly) (rest : List Anomaly)
        → (a.is_anomaly ≡ true → P a)
        → All P rest
        → All P (add_flagged a rest)
    add_flagged-All P a rest h k = elim (Bool-cases a.is_anomaly) [
      | inl flag ↦ subst (λ b. All P (if b then a ∷ rest else rest)) (sym flag) (h flag, k)
      | inr clean ↦ subst (λ b. All P (if b then a ∷ rest else rest)) (sym clean) k
    ]

    add_flagged-Any :
        (P : Anomaly → Type 0) (a : Anomaly) (rest : List Anomaly)
        → ((a.is_anomaly ≡ true) × P a) ⊎ Any P rest
        → Any P (add_flagged a rest)
    add_flagged-Any P a rest (inl (flag, h)) =
        subst (λ b. Any P (if b then a ∷ rest else rest)) (sym flag) (inl h)
    add_flagged-Any P a rest (inr k) = elim (Bool-cases a.is_anomaly) [
      | inl flag ↦ subst (λ b. Any P (if b then a ∷ rest else rest)) (sym flag) (inr k)
      | inr clean ↦ subst (λ b. Any P (if b then a ∷ rest else rest)) (sym clean) k
    ]

    amounts-append :
        (earlier : List Invoice) (inv : Invoice)
        → amounts (earlier ++ (inv ∷ [])) ≡ amounts earlier ++ (inv.amount ∷ [])
    amounts-append [] inv = refl
    amounts-append (i ∷ earlier) inv = ap (◌∷◌ i.amount) (amounts-append earlier inv)

    scan_vendor-IsScored :
        (all earlier invs : List Invoice)
        → all ≡ earlier ++ invs
        → All
            (IsScored z_threshold vendor all)
            (scan_vendor vendor z_threshold (amounts earlier) invs)
    unfolding scan_vendor
    scan_vendor-IsScored all earlier [] split = tt
    scan_vendor-IsScored all earlier (inv ∷ invs) split =
        let rest =
          scan_vendor-IsScored all (earlier ++ (inv ∷ [])) invs
            (split ∙ sym (append_assoc earlier (inv ∷ []) invs)) in
        let history = amounts earlier in
        add_flagged-All (IsScored z_threshold vendor all)
          (score_invoice vendor inv.amount history z_threshold)
          (scan_vendor vendor z_threshold (history ++ (inv.amount ∷ [])) invs)
          (λ flag.
            (earlier, inv, invs, split, refl, (score_invoice_flag inv.amount history).0 flag))
          (subst
            (λ h. All (IsScored z_threshold vendor all) (scan_vendor vendor z_threshold h invs))
            (amounts-append earlier inv) rest)

    scan_vendor-Any :
        (P : Anomaly → Type 0) (before : List Invoice) (inv : Invoice)
        (later earlier : List Invoice)
        → P (score_invoice vendor inv.amount (amounts (earlier ++ before)) z_threshold)
        → IsOutlier z_threshold inv.amount (amounts (earlier ++ before))
        → Any P (scan_vendor vendor z_threshold (amounts earlier) (before ++ (inv ∷ later)))
    unfolding scan_vendor
    scan_vendor-Any P [] inv later earlier holds outlier =
        let same = append-nil earlier in
        let history = amounts earlier in
        add_flagged-Any P (score_invoice vendor inv.amount history z_threshold)
          (scan_vendor vendor z_threshold (history ++ (inv.amount ∷ [])) later)
          (inl (
            (score_invoice_flag inv.amount history).1
                (subst (λ l. IsOutlier z_threshold inv.amount (amounts l)) same outlier),
            subst (λ l. P (score_invoice vendor inv.amount (amounts l) z_threshold)) same holds,
          ))
    scan_vendor-Any P (i ∷ before) inv later earlier holds outlier =
        let same = sym (append_assoc earlier (i ∷ []) before) in
        let rest =
          scan_vendor-Any P before inv later (earlier ++ (i ∷ []))
            (subst (λ l. P (score_invoice vendor inv.amount (amounts l) z_threshold)) same holds)
            (subst (λ l. IsOutlier z_threshold inv.amount (amounts l)) same outlier) in
        add_flagged-Any P (score_invoice vendor i.amount (amounts earlier) z_threshold)
          (scan_vendor vendor z_threshold (amounts earlier ++ (i.amount ∷ []))
            (before ++ (inv ∷ later)))
          (inr (
            subst (λ h. Any P (scan_vendor vendor z_threshold h (before ++ (inv ∷ later))))
              (amounts-append earlier i) rest))

  module _ (z_threshold : p.Float) where
    scan_groups-IsFlagged :
        (invoices : List Invoice) (groups : Dict (List Invoice))
        → All (λ (e : String × List Invoice). e.1 ≡ of_vendor e.0 invoices) groups
        → All (IsFlagged z_threshold invoices) (scan_groups z_threshold groups)
    unfolding scan_groups
    scan_groups-IsFlagged invoices [] h = tt
    scan_groups-IsFlagged invoices ((vendor, invs) ∷ groups) (own, h) =
        let ordered = sort by_date invs in
        let scored = scan_vendor-IsScored z_threshold vendor ordered [] ordered refl in
        All-append (IsFlagged z_threshold invoices) (scan_vendor vendor z_threshold [] ordered)
          (scan_groups z_threshold groups)
          (All-imp (IsScored z_threshold vendor ordered) (IsFlagged z_threshold invoices)
            (scan_vendor vendor z_threshold [] ordered)
            (λ a scored.
              (vendor, subst (λ l. IsScored z_threshold vendor (sort by_date l) a) own scored))
            scored)
          (scan_groups-IsFlagged invoices groups h)

    scan_groups-Any :
        (P : Anomaly → Type 0) (vendor : String) (invs : List Invoice)
        (groups : Dict (List Invoice))
        → get vendor groups ≡ some invs
        → Any P (scan_vendor vendor z_threshold [] (sort by_date invs))
        → Any P (scan_groups z_threshold groups)
    unfolding scan_groups get
    scan_groups-Any P vendor invs [] there here = cc there
    scan_groups-Any P vendor invs ((v, l) ∷ groups) there here =
        Any-append P (scan_vendor v z_threshold [] (sort by_date l))
          (scan_groups z_threshold groups)
          (elim (Bool-cases (str_eq v vendor)) [
            | inl same ↦ inl (
                subst (λ u. Any P (scan_vendor u z_threshold [] (sort by_date l)))
                  (sym ((str_eq_iff v vendor).0 same))
                  (subst (λ m. Any P (scan_vendor vendor z_threshold [] (sort by_date m)))
                    (ground arith) here))
            | inr other ↦ inr (scan_groups-Any P vendor invs groups (ground arith) here)
          ])

    grouped_there :
        (vendor : String) (invoices earlier later : List Invoice) (inv : Invoice)
        → sort by_date (of_vendor vendor invoices) ≡ earlier ++ (inv ∷ later)
        → get vendor (by_vendor invoices []) ≡ some (of_vendor vendor invoices)
    unfolding sort
    grouped_there vendor invoices earlier later inv split =
        let same = invoices_of-grouped vendor invoices in
        elim (Option-cases (get vendor (by_vendor invoices []))) [
          | inl missing ↦
              let none_there : of_vendor vendor invoices ≡ [] = ground arith in
              let nothing : [] ≡ earlier ++ (inv ∷ later) =
                ap (sort by_date) (sym none_there) ∙ split in
              absurd (omega (arith, ap length nothing, length-append earlier (inv ∷ later)))
          | inr (l, there) ↦ ground arith
        ]

  -- A scan reports exactly these: the scores, among the invoices of one vendor in the order of their
  -- dates, of those that have at least two before them and stand out from all of these by more than the
  -- z-score threshold and by at least the least percentage.
  pub scan-IsFlagged :
      (invoices : List Invoice) (z_threshold : p.Float) (a : Anomaly)
      → Among (scan invoices z_threshold) a ↔ IsFlagged z_threshold invoices a
  unfolding scan
  scan-IsFlagged invoices z_threshold a =
      let found = scan_groups z_threshold (by_vendor invoices []) in
      (
        λ there. Among-All (IsFlagged z_threshold invoices) (sort by_z found) a there (
            sort-All by_z (IsFlagged z_threshold invoices) found (
              scan_groups-IsFlagged z_threshold invoices (by_vendor invoices [])
                (grouped-All invoices))),
        λ (vendor, (earlier, inv, later, split, scored, outlier)).
            sort-Any by_z (λ b. a ≡ b) found
              (scan_groups-Any z_threshold (λ b. a ≡ b) vendor (of_vendor vendor invoices)
                (by_vendor invoices [])
                (grouped_there z_threshold vendor invoices earlier later inv split)
                (subst (λ l. Any (λ b. a ≡ b) (scan_vendor vendor z_threshold [] l)) (sym split)
                  (scan_vendor-Any z_threshold vendor (λ b. a ≡ b) earlier inv later [] scored
                    outlier))),
      )
