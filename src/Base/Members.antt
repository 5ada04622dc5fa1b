-- ===== src/Base/Members.antt =====
-- Predicates on some member and on each pair of members, and what sorting keeps of them.
use mathlib.Core.Path.{◌≡◌, refl}
use mathlib.Core.Logic.{◌⊎◌, inl, inr}
use mathlib.Core.Bool.{Bool}
use mathlib.Core.List.{List, [], ◌∷◌}
use nemoclaw_smb.Base.Tests.{Bool-cases}
use nemoclaw_smb.Base.Lists.{All, insert_sorted, insert_sorted-All, sort, sort-All}

module _ {A : Type 0} where
  abbrev pub Any : (A → Type 0) → List A → Type 0
  Any P [] = ⊥
  Any P (x ∷ xs) = P x ⊎ Any P xs

  -- Each element is related to all after it.
  abbrev pub Pairwise : (A → A → Type 0) → List A → Type 0
  Pairwise R [] = Unit
  Pairwise R (x ∷ xs) = All (R x) xs × Pairwise R xs

  -- the element is there
  abbrev pub Among : List A → A → Type 0
  Among xs x = Any (λ y. x ≡ y) xs

  pub All-imp : (P Q : A → Type 0) (xs : List A) → ((x : A) → P x → Q x) → All P xs → All Q xs
  All-imp P Q [] f all = tt
  All-imp P Q (x ∷ xs) f (here, rest) = (f x here, All-imp P Q xs f rest)

  pub All-Among : (xs : List A) → All (Among xs) xs
  All-Among [] = tt
  All-Among (x ∷ xs) =
      (inl refl, All-imp (Among xs) (Among (x ∷ xs)) xs (λ y there. inr there) (All-Among xs))

  module _ (le : A → A → Bool) where
    insert_sorted-Any :
        (P : A → Type 0) (x : A) (ys : List A) → P x ⊎ Any P ys → Any P (insert_sorted le x ys)
    unfolding insert_sorted
    insert_sorted-Any P x [] h = h
    insert_sorted-Any P x (y ∷ ys) h = elim (Bool-cases (le x y)) [
      | inl e ↦ rw (e, insert_sorted) h
      | inr e ↦ rw (e, insert_sorted) (later (insert_sorted-Any P x ys) h)
    ]
      where
        later :
            (P x ⊎ Any P ys → Any P (insert_sorted le x ys))
            → P x ⊎ (P y ⊎ Any P ys)
            → P y ⊎ Any P (insert_sorted le x ys)
        later recur (inl here) = inr (recur (inl here))
        later recur (inr (inl next)) = inl next
        later recur (inr (inr rest)) = inr (recur (inr rest))

    pub sort-Any : (P : A → Type 0) (xs : List A) → Any P xs → Any P (sort le xs)
    unfolding sort
    sort-Any P [] h = h
    sort-Any P (x ∷ xs) (inl here) = insert_sorted-Any P x (sort le xs) (inl here)
    sort-Any P (x ∷ xs) (inr there) = insert_sorted-Any P x (sort le xs) (inr (sort-Any P xs there))

    module _ (R : A → A → Type 0) (symmetric : (x y : A) → R x y → R y x) where
      insert_sorted-Pairwise :
          (x : A) (ys : List A) → All (R x) ys → Pairwise R ys → Pairwise R (insert_sorted le x ys)
      unfolding insert_sorted
      insert_sorted-Pairwise x [] all pairs = (tt, tt)
      insert_sorted-Pairwise x (y ∷ ys) (here, all) (first, pairs) =
          let rest = insert_sorted-Pairwise x ys all pairs in
          elim (Bool-cases (le x y)) [
            | inl e ↦ rw (e, insert_sorted) ((here, all), (first, pairs))
            | inr e ↦
                rw (e, insert_sorted)
                  (insert_sorted-All le (R y) x ys (symmetric x y here) first, rest)
          ]

      pub sort-Pairwise : (xs : List A) → Pairwise R xs → Pairwise R (sort le xs)
      unfolding sort
      sort-Pairwise [] pairs = tt
      sort-Pairwise (x ∷ xs) (here, pairs) =
          insert_sorted-Pairwise x (sort le xs) (sort-All le (R x) xs here) (sort-Pairwise xs pairs)
