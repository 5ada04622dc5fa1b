-- ===== src/Anomaly.antt =====
-- The scoring of invoices against a vendor's history (gbrain/anomaly_detector.py).
pub mod Grouped
pub mod Flagged
use nemoclaw_smb.Base.{
  ℕ, String, Bool, true, false, not, ◌&&◌, Option, none, some, List, [], ◌∷◌, ◌++◌, concat, str_le,
  sort, if◌then◌else◌,
}
use nemoclaw_smb.Base.Dict.{Dict, get, put}
use nemoclaw_smb.Platform.{Platform}

module _ ⦃p : Platform⦄ where
  open p use {Float}

  pub record Anomaly : Type 0 where
    pub vendor : String
    pub current_amount : Float
    pub baseline_mean : Float
    pub z_score : Float
    pub pct_change : Float
    pub is_anomaly : Bool
    pub reason : String

  pub record Invoice : Type 0 where
    pub vendor : String
    pub amount : Float
    pub date : String

  -- MIN_PCT_CHANGE
  abbrev pub min_pct_change : Float
  min_pct_change = p.of_ℕ 8

  abbrev few : String → Float → Float → Anomaly
  few vendor amount baseline = record {
    vendor = vendor;
    current_amount = amount;
    baseline_mean = baseline;
    z_score = p.of_ℕ 0;
    pct_change = p.of_ℕ 0;
    is_anomaly = false;
    reason = "insufficient history";
  }

  abbrev is_zero : Float → Bool
  is_zero x = p.le x (p.of_ℕ 0) && p.le (p.of_ℕ 0) x

  -- `z_score` before it is rounded
  abbrev pub raw_z : Float → List Float → Float
  raw_z amount history =
      if p.lt (p.of_ℕ 0) (p.pstdev history)
      then p.div (p.sub amount (p.mean history)) (p.pstdev history)
      else p.of_ℕ 0

  -- `pct_change` before it is rounded
  abbrev pub raw_pct : Float → List Float → Float
  raw_pct amount history =
      if not (is_zero (p.mean history))
      then p.mul (p.div (p.sub amount (p.mean history)) (p.mean history)) (p.of_ℕ 100)
      else p.of_ℕ 0

  abbrev pub stands_out : Float → List Float → Float → Bool
  stands_out amount history z_threshold =
      p.lt z_threshold (p.abs (raw_z amount history))
      && p.le min_pct_change (p.abs (raw_pct amount history))

  abbrev moved_text : Float → List Float → String
  moved_text amount history = concat (
      (if p.le (p.of_ℕ 0) (raw_pct amount history) then "up" else "down")
      ∷ " "
      ∷ p.show_fixed 0 (p.abs (raw_pct amount history))
      ∷ "% from $"
      ∷ p.show_fixed 0 (p.mean history)
      ∷ " to $"
      ∷ p.show_fixed 0 amount
      ∷ " (z="
      ∷ p.show_fixed 2 (raw_z amount history)
      ∷ ")"
      ∷ [])

  unfoldable pub score_invoice : String → Float → List Float → Float → Anomaly
  score_invoice vendor amount [] z_threshold = few vendor amount (p.of_ℕ 0)
  score_invoice vendor amount (x ∷ []) z_threshold = few vendor amount x
  score_invoice vendor amount (x ∷ y ∷ rest) z_threshold =
      let history = x ∷ y ∷ rest in
      let flag = stands_out amount history z_threshold in
      record {
        vendor = vendor;
        current_amount = amount;
        baseline_mean = p.round_to 2 (p.mean history);
        z_score = p.round_to 2 (raw_z amount history);
        pct_change = p.round_to 1 (raw_pct amount history);
        is_anomaly = flag;
        reason = if flag then moved_text amount history else "within normal range";
      }

  abbrev pub invoices_of : String → Dict (List Invoice) → List Invoice
  invoices_of vendor groups = elim (get vendor groups) [ none ↦ [] | some l ↦ l ]

  -- `by_vendor[inv["vendor"]].append(inv)` for each invoice
  unfoldable pub by_vendor : List Invoice → Dict (List Invoice) → Dict (List Invoice)
  by_vendor [] groups = groups
  by_vendor (inv ∷ invs) groups =
      by_vendor invs (put inv.vendor (invoices_of inv.vendor groups ++ (inv ∷ [])) groups)

  abbrev add_flagged : Anomaly → List Anomaly → List Anomaly
  add_flagged a rest = if a.is_anomaly then a ∷ rest else rest

  -- The inner loop of `scan`, over one vendor's invoices in the order of their dates.
  unfoldable pub scan_vendor : String → Float → List Float → List Invoice → List Anomaly
  scan_vendor vendor z_threshold history [] = []
  scan_vendor vendor z_threshold history (inv ∷ invs) =
      add_flagged (score_invoice vendor inv.amount history z_threshold)
        (scan_vendor vendor z_threshold (history ++ (inv.amount ∷ [])) invs)

  abbrev pub by_date : Invoice → Invoice → Bool
  by_date i j = str_le i.date j.date

  unfoldable pub scan_groups : Float → Dict (List Invoice) → List Anomaly
  scan_groups z_threshold [] = []
  scan_groups z_threshold ((vendor, invs) ∷ groups) =
      scan_vendor vendor z_threshold [] (sort by_date invs) ++ scan_groups z_threshold groups

  -- a reverse sort keeps the order of equal keys
  abbrev pub by_z : Anomaly → Anomaly → Bool
  by_z a b = p.le (p.abs b.z_score) (p.abs a.z_score)

  unfoldable pub scan : List Invoice → Float → List Anomaly
  scan invoices z_threshold = sort by_z (scan_groups z_threshold (by_vendor invoices []))
