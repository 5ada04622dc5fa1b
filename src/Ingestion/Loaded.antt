-- ===== src/Ingestion/Loaded.antt =====
-- What the loader keeps (ingestion/loader.py).
use mathlib.Core.Path.{subst}
use nemoclaw_smb.Base.{
  ℕ, ◌≡◌, ◌⊎◌, inl, inr, refl, sym, String, true, false, List, [], ◌∷◌, All, Bool-cases, IsSorted,
  arith, sort, sort-All, sort-IsSorted, str_eq, str_eq_iff, str_le_total,
}
use nemoclaw_smb.Base.Members.{All-Among, All-imp, Among, Any, Pairwise, sort-Any, sort-Pairwise}
use nemoclaw_smb.Base.Act.{ok}
use nemoclaw_smb.Platform.{Platform}
use nemoclaw_smb.Tenancy.{Tenant}
use nemoclaw_smb.Ingestion.{Transaction}
use nemoclaw_smb.Ingestion.Loader.{
  by_date, chosen_files, dedup, dedup_from, load_files, load_transactions, same_key, seen_in,
}

module _ ⦃p : Platform⦄ where
  abbrev pub Differs : Transaction → Transaction → Type 0
  Differs t u = same_key t u ≡ false

  -- the transaction itself or one with an equal key
  abbrev pub StandsFor : Transaction → Transaction → Type 0
  StandsFor t u = (t ≡ u) ⊎ (same_key t u ≡ true)

  -- What a list is to the transactions that it is loaded from.
  pub record IsClean (all result : List Transaction) : Type 0 where
    pub sorted : IsSorted by_date result
    pub distinct : Pairwise Differs result
    pub nothing_lost : All (λ t. Any (StandsFor t) result) all
    pub nothing_new : All (Among all) result

  str_eq_comm : (s t : String) → str_eq s t ≡ str_eq t s
  str_eq_comm s t = ground (arith, str_eq_iff s t, str_eq_iff t s)

  same_key_comm : (t u : Transaction) → same_key t u ≡ same_key u t
  unfolding same_key
  same_key_comm t u = ground (arith, str_eq_comm t.date u.date, str_eq_comm t.vendor u.vendor)

  Differs-symm : (t u : Transaction) → Differs t u → Differs u t
  Differs-symm t u h = rw (same_key_comm u t) h

  dedup_from-All :
      (P : Transaction → Type 0) (seen ts : List Transaction)
      → All P ts
      → All P (dedup_from seen ts)
  unfolding dedup_from
  dedup_from-All P seen [] all = tt
  dedup_from-All P seen (t ∷ ts) (here, all) = elim (Bool-cases (seen_in t seen)) [
    | inl e ↦ rw (e, dedup_from) (dedup_from-All P seen ts all)
    | inr e ↦ rw (e, dedup_from) (here, dedup_from-All P (t ∷ seen) ts all)
  ]

  -- nothing kept has the key of what has been seen
  unseen :
      (t u : Transaction) (seen : List Transaction) → seen_in u (t ∷ seen) ≡ false → Differs t u
  unfolding seen_in
  unseen t u seen h = ground (arith, same_key_comm t u)

  seen_less :
      (t u : Transaction) (seen : List Transaction)
      → seen_in u (t ∷ seen) ≡ false
      → seen_in u seen ≡ false
  unfolding seen_in
  seen_less t u seen h = ground arith

  dedup_from_new :
      (seen ts : List Transaction) → All (λ u. seen_in u seen ≡ false) (dedup_from seen ts)
  unfolding dedup_from
  dedup_from_new seen [] = tt
  dedup_from_new seen (t ∷ ts) = elim (Bool-cases (seen_in t seen)) [
    | inl e ↦ rw (e, dedup_from) (dedup_from_new seen ts)
    | inr e ↦
        rw (e, dedup_from)
          (
            e,
            All-imp (λ u. seen_in u (t ∷ seen) ≡ false) (λ u. seen_in u seen ≡ false)
                (dedup_from (t ∷ seen) ts) (λ u h. seen_less t u seen h)
                (dedup_from_new (t ∷ seen) ts),
          )
  ]

  dedup_from-Pairwise : (seen ts : List Transaction) → Pairwise Differs (dedup_from seen ts)
  unfolding dedup_from
  dedup_from-Pairwise seen [] = tt
  dedup_from-Pairwise seen (t ∷ ts) = elim (Bool-cases (seen_in t seen)) [
    | inl e ↦ rw (e, dedup_from) (dedup_from-Pairwise seen ts)
    | inr e ↦
        rw (e, dedup_from)
          (
            All-imp (λ u. seen_in u (t ∷ seen) ≡ false) (Differs t) (dedup_from (t ∷ seen) ts)
                (λ u h. unseen t u seen h) (dedup_from_new (t ∷ seen) ts),
            dedup_from-Pairwise (t ∷ seen) ts,
          )
  ]

  seen_in-Any :
      (t : Transaction) (seen : List Transaction) → seen_in t seen ≡ true → Any (StandsFor t) seen
  unfolding seen_in
  seen_in-Any t [] h = cc h
  seen_in-Any t (u ∷ seen) h = elim (Bool-cases (same_key t u)) [
    | inl e ↦ inl (inr e)
    | inr e ↦ inr (seen_in-Any t seen (rw (e, seen_in) at h))
  ]

  -- where a transaction stands once the loop has seen some
  abbrev Kept : List Transaction → List Transaction → Transaction → Type 0
  Kept seen kept t = Any (StandsFor t) seen ⊎ Any (StandsFor t) kept

  Kept-cons :
      (t u : Transaction) (seen kept : List Transaction)
      → Kept (t ∷ seen) kept u
      → Kept seen (t ∷ kept) u
  Kept-cons t u seen kept (inl (inl here)) = inr (inl here)
  Kept-cons t u seen kept (inl (inr there)) = inl there
  Kept-cons t u seen kept (inr there) = inr (inr there)

  dedup_from-Kept : (seen ts : List Transaction) → All (Kept seen (dedup_from seen ts)) ts
  unfolding dedup_from
  dedup_from-Kept seen [] = tt
  dedup_from-Kept seen (t ∷ ts) =
      let with_kept = λ (kept : List Transaction). All (Kept seen kept) (t ∷ ts) in
      elim (Bool-cases (seen_in t seen)) [
        | inl e ↦
            let skipped : dedup_from seen (t ∷ ts) ≡ dedup_from seen ts = ground arith in
            subst with_kept (sym skipped) (inl (seen_in-Any t seen e), dedup_from-Kept seen ts)
        | inr e ↦
            let kept = dedup_from (t ∷ seen) ts in
            let taken : dedup_from seen (t ∷ ts) ≡ t ∷ kept = ground arith in
            subst with_kept (sym taken) (
              inr (inl (inl refl)),
              All-imp (Kept (t ∷ seen) kept) (Kept seen (t ∷ kept)) ts
                  (λ u h. Kept-cons t u seen kept h) (dedup_from-Kept (t ∷ seen) ts),
            )
      ]

  Kept-Any : (kept : List Transaction) (t : Transaction) → Kept [] kept t → Any (StandsFor t) kept
  Kept-Any kept t (inl nowhere) = absurd nowhere
  Kept-Any kept t (inr there) = there

  dedup-IsClean : (all : List Transaction) → IsClean all (sort by_date (dedup all))
  dedup-IsClean all = record {
    sorted = sort-IsSorted by_date (λ t u. str_le_total t.date u.date) (dedup all);
    distinct = sort-Pairwise by_date Differs Differs-symm (dedup all) (dedup_from-Pairwise [] all);
    nothing_lost =
        All-imp (Kept [] (dedup all)) (λ t. Any (StandsFor t) (sort by_date (dedup all))) all
          (λ t h. sort-Any by_date (StandsFor t) (dedup all) (Kept-Any (dedup all) t h))
          (dedup_from-Kept [] all);
    nothing_new =
        sort-All by_date (Among all) (dedup all)
          (dedup_from-All (Among all) [] all (All-Among all));
  }

  -- If the files to read are found, then loading succeeds, whatever the single files hold. The result
  -- is sorted by date, no two of its transactions have the same date, vendor and amount, each of them
  -- comes from a file, and each transaction of a file is there, itself or as one with the same date,
  -- vendor and amount.
  pub load_transactions-IsClean :
      (tenant : Tenant) (tick : ℕ) (paths : List String)
      → chosen_files tenant ≡ ok paths
      → (result : List Transaction) × (later : ℕ) × (load_transactions tenant tick
          ≡ (ok result, later))
        × IsClean (load_files tenant paths tick).0 result
  unfolding load_transactions
  load_transactions-IsClean tenant tick paths found =
      let (all, later) = load_files tenant paths tick in
      (sort by_date (dedup all), later, ground arith, dedup-IsClean all)
