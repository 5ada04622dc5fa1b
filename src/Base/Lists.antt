-- ===== src/Base/Lists.antt =====
-- Lists measured by native numbers, and predicates on their members.
use Prim.Native.Nat.{ℕ, zero, suc, ◌+◌, ◌<◌}
use mathlib.Core.Option.{Option, none, some}
use mathlib.Core.Path.{◌≡◌, refl, ap, ◌∙◌}
use mathlib.Core.Logic.{◌⊎◌, inl, inr}
use mathlib.Core.Bool.{Bool, true}
use nemoclaw_smb.Base.Tests.{Bool-cases, if◌then◌else◌}
use mathlib.Core.List.{List, [], ◌∷◌, ◌++◌, map}
use native.Mathlib.Omega.{arith}

module _ {ℓ} {A : Type ℓ} where
  abbrev pub length : List A → ℕ
  length [] = 0
  length (_ ∷ xs) = suc (length xs)

  pub length-append : (xs ys : List A) → length (xs ++ ys) ≡ length xs + length ys
  length-append [] ys = omega arith
  length-append (x ∷ xs) ys = omega (arith, length-append xs ys)

  abbrev pub All {κ} : (A → Type κ) → List A → Type κ
  All P [] = Unit
  All P (x ∷ xs) = P x × All P xs

module _ {A : Type 0} where
  -- `list[n]`, where `none` is an `IndexError`
  unfoldable pub nth : List A → ℕ → Option A
  nth [] n = none
  nth (x ∷ xs) zero = some x
  nth (x ∷ xs) (suc n) = nth xs n

  -- An index in range has an element, with what all elements have.
  pub All-nth :
      (P : A → Type 0) (xs : List A) (n : ℕ)
      → All P xs
      → n < length xs
      → (x : A) × (nth xs n ≡ some x) × P x
  unfolding nth
  All-nth P [] n all below = absurd (omega arith)
  All-nth P (x ∷ xs) zero (here, rest) below = (x, refl, here)
  All-nth P (x ∷ xs) (suc n) (here, rest) below = All-nth P xs n rest (omega arith)

module _ {ℓ κ} {A : Type ℓ} {B : Type κ} where
  pub length-map : (xs : List A) (f : A → B) → length (map f xs) ≡ length xs
  length-map [] f = refl
  length-map (x ∷ xs) f = ap suc (length-map xs f)

-- Python's `sort` with a key: stable, in the order of `le`.
module _ {A : Type 0} (le : A → A → Bool) where
  unfoldable pub insert_sorted : A → List A → List A
  insert_sorted x [] = x ∷ []
  insert_sorted x (y ∷ ys) =
      let rest = insert_sorted x ys in if le x y then x ∷ y ∷ ys else y ∷ rest

  unfoldable pub sort : List A → List A
  unfolding insert_sorted
  sort [] = []
  sort (x ∷ xs) = insert_sorted x (sort xs)

  pub insert_sorted-All :
      (P : A → Type 0) (x : A) (ys : List A) → P x → All P ys → All P (insert_sorted x ys)
  unfolding insert_sorted
  insert_sorted-All P x [] here all = (here, tt)
  insert_sorted-All P x (y ∷ ys) here (first, all) =
      let rest = insert_sorted-All P x ys here all in
      elim (Bool-cases (le x y)) [
        | inl e ↦ rw (e, insert_sorted) (here, (first, all))
        | inr e ↦ rw (e, insert_sorted) (first, rest)
      ]

  pub sort-All : (P : A → Type 0) (xs : List A) → All P xs → All P (sort xs)
  unfolding sort
  sort-All P [] all = tt
  sort-All P (x ∷ xs) (here, all) = insert_sorted-All P x (sort xs) here (sort-All P xs all)

  pub length-insert_sorted : (x : A) (ys : List A) → length (insert_sorted x ys) ≡ suc (length ys)
  unfolding insert_sorted
  length-insert_sorted x [] = refl
  length-insert_sorted x (y ∷ ys) = ground (arith, length-insert_sorted x ys)

  pub length-sort : (xs : List A) → length (sort xs) ≡ length xs
  unfolding sort
  length-sort [] = refl
  length-sort (x ∷ xs) = length-insert_sorted x (sort xs) ∙ ap suc (length-sort xs)

  -- Each element is in order with the one after it.
  abbrev pub IsSorted : List A → Type 0
  IsSorted [] = Unit
  IsSorted (x ∷ []) = Unit
  IsSorted (x ∷ y ∷ ys) = (le x y ≡ true) × IsSorted (y ∷ ys)

  module _ (total : (x y : A) → (le x y ≡ true) ⊎ (le y x ≡ true)) where
    pub insert_sorted-IsSorted : (x : A) (ys : List A) → IsSorted ys → IsSorted (insert_sorted x ys)
    unfolding insert_sorted
    insert_sorted-IsSorted x [] h = tt
    insert_sorted-IsSorted x (y ∷ []) h = ground (arith, total x y)
    insert_sorted-IsSorted x (y ∷ z ∷ zs) (yz, h) =
        ground (arith, total x y, insert_sorted-IsSorted x (z ∷ zs) h)

    pub sort-IsSorted : (xs : List A) → IsSorted (sort xs)
    unfolding sort
    sort-IsSorted [] = tt
    sort-IsSorted (x ∷ xs) = insert_sorted-IsSorted x (sort xs) (sort-IsSorted xs)
