-- ===== src/Base/Counts.antt =====
-- How many members of a list pass a test, which sorting does not change.
use Prim.Native.Nat.{ℕ, zero, suc, ◌+◌, ◌-◌, ◌≤◌}
use mathlib.Core.Path.{◌≡◌, refl, subst}
use mathlib.Core.Bool.{Bool, true}
use mathlib.Core.Option.{some}
use mathlib.Core.List.{List, [], ◌∷◌, ◌++◌}
use native.Mathlib.Omega.{arith}
use nemoclaw_smb.Base.Tests.{if◌then◌else◌}
use nemoclaw_smb.Base.Lists.{All, IsSorted, insert_sorted, length, nth, sort}

module _ {A : Type 0} (test : A → Bool) where
  unfoldable pub count : List A → ℕ
  count [] = 0
  count (x ∷ xs) = (if test x then 1 else 0) + count xs

  pub count-append : (xs ys : List A) → count (xs ++ ys) ≡ count xs + count ys
  unfolding count
  count-append [] ys = omega arith
  count-append (x ∷ xs) ys = omega (arith, count-append xs ys)

  count-insert_sorted :
      (le : A → A → Bool) (x : A) (ys : List A)
      → count (insert_sorted le x ys) ≡ (if test x then 1 else 0) + count ys
  unfolding count insert_sorted
  count-insert_sorted le x [] = refl
  count-insert_sorted le x (y ∷ ys) = ground (arith, count-insert_sorted le x ys)

  pub count-sort : (le : A → A → Bool) (xs : List A) → count (sort le xs) ≡ count xs
  unfolding count sort
  count-sort le [] = refl
  count-sort le (x ∷ xs) = omega (arith, count-insert_sorted le x (sort le xs), count-sort le xs)

  pub count-All : (xs : List A) → All (λ x. test x ≡ true) xs → count xs ≡ length xs
  unfolding count
  count-All [] h = refl
  count-All (x ∷ xs) (here, rest) = ground (arith, count-All xs rest)

module _ {A : Type 0} where
  pub nth-All : (Q : A → Type 0) (xs : List A) (n : ℕ) (x : A) → All Q xs → nth xs n ≡ some x → Q x
  unfolding nth
  nth-All Q [] n x all there = cc there
  nth-All Q (y ∷ ys) zero x (here, rest) there = subst Q (cc there) here
  nth-All Q (y ∷ ys) (suc n) x (here, rest) there = nth-All Q ys n x rest there

-- Positions in a sorted list, in an order that is transitive on what the members have.
module _ {A : Type 0} (le : A → A → Bool) (reflexive : (x : A) → le x x ≡ true) (P : A → Type 0)
    (transitive : (x y z : A)
      → P x
      → P y
      → P z
      → le x y ≡ true
      → le y z ≡ true
      → le x z ≡ true) where
  at_least_head :
      (x : A) (ys : List A) → All P (x ∷ ys) → IsSorted le (x ∷ ys) → All (λ y. le x y ≡ true) ys
  at_least_head x [] all h = tt
  at_least_head x (y ∷ []) all (xy, h) = (xy, tt)
  at_least_head x (y ∷ z ∷ zs) (px, (py, (pz, all))) (xy, (yz, h)) =
      let xz = transitive x y z px py pz xy yz in
      (xy, at_least_head x (z ∷ zs) (px, (pz, all)) (xz, h))

  tail-IsSorted : (x : A) (xs : List A) → IsSorted le (x ∷ xs) → IsSorted le xs
  tail-IsSorted x [] h = tt
  tail-IsSorted x (y ∷ ys) (_, h) = h

  -- From an element on, all are at least as great.
  pub count_from :
      (xs : List A) (n : ℕ) (x : A)
      → All P xs
      → IsSorted le xs
      → nth xs n ≡ some x
      → length xs - n ≤ count (λ y. le x y) xs
  unfolding count nth
  count_from [] n x all h there = omega arith
  count_from (y ∷ ys) zero x all h there =
      let whole =
        count-All (λ z. le x z) (y ∷ ys)
          (subst (λ v. All (λ z. le v z ≡ true) (y ∷ ys)) (cc there)
            (reflexive y, at_least_head y ys all h)) in
      omega (arith, whole)
  count_from (y ∷ ys) (suc n) x (_, all) h there =
      omega (arith, count_from ys n x all (tail-IsSorted y ys h) there)

  -- Up to an element, all are at most as great.
  pub count_up_to :
      (xs : List A) (n : ℕ) (x : A)
      → All P xs
      → IsSorted le xs
      → nth xs n ≡ some x
      → suc n ≤ count (λ y. le y x) xs
  unfolding count nth
  count_up_to [] n x all h there = cc there
  count_up_to (y ∷ ys) zero x all h there =
      let same : y ≡ x = cc there in
      let here : le y x ≡ true = rw same (reflexive x) in ground arith
  count_up_to (y ∷ ys) (suc n) x (py, all) h there =
      let below = nth-All (λ z. le y z ≡ true) ys n x (at_least_head y ys (py, all) h) there in
      ground (arith, count_up_to ys n x all (tail-IsSorted y ys h) there)
