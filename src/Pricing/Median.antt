-- ===== src/Pricing/Median.antt =====
-- The anchor of comparable rates (skills/dynamic_pricing_skill.py): it is their median.
use nemoclaw_smb.Base.{
  ℕ, ◌+◌, ◌-◌, ◌/◌, ◌%◌, ◌<◌, ◌≤◌, ◌≡◌, ◌⊎◌, inl, inr, false, refl, true, List, [], ◌∷◌, arith, All,
  All-nth, nth, some, length, length-sort, sort, sort-All, sort-IsSorted, ◌==◌, Bool-cases,
}
use nemoclaw_smb.Base.Counts.{count, count-sort, count_from, count_up_to, nth-All}
use nemoclaw_smb.Base.Members.{All-Among, Among}
use nemoclaw_smb.Base.Act.{ok}
use nemoclaw_smb.Platform.{Platform}
use nemoclaw_smb.Rates.{at, comp_anchor, middle, midpoint, not_after}

module _ ⦃p : Platform⦄ where
  -- What the order of floats has: no two are each below the other, and among numbers, which are at
  -- most themselves, it is transitive not to be above.
  abbrev pub IsNumber : p.Float → Type 0
  IsNumber x = p.le x x ≡ true

  pub record IsOrdered : Type 0 where
    pub asymmetric : (x y : p.Float) → p.lt x y ≡ true → p.lt y x ≡ false
    pub transitive :
        (x y z : p.Float)
        → IsNumber x
        → IsNumber y
        → IsNumber z
        → p.lt y x ≡ false
        → p.lt z y ≡ false
        → p.lt z x ≡ false

  -- A rate that stands at a place when the rates are put in order, the first being 0: it is one of them,
  -- more than so many are not above it, and all but so many are not below it.
  pub record IsRanked (rates : List p.Float) (place : ℕ) (x : p.Float) : Type 0 where
    pub member : Among rates x
    pub not_above : place < count (λ y. not_after y x) rates
    pub not_below : length rates ≤ place + count (λ y. not_after x y) rates

  -- The median: the one in the middle, or the midpoint of the two in the middle.
  abbrev pub IsMedian : List p.Float → p.Float → Type 0
  IsMedian rates m =
      let mid = length rates / 2 in
      ((length rates % 2 ≡ 1) × IsRanked rates mid m)
      ⊎ ((length rates % 2 ≡ 0)
          × ((a : p.Float) × (b : p.Float) × IsRanked rates (mid - 1) a
              × IsRanked rates mid b
              × (m ≡ midpoint a b)))

  at_found :
      (xs : List p.Float) (n : ℕ)
      → n < length xs
      → (x : p.Float) × (nth xs n ≡ some x) × (at xs n ≡ ok x)
  at_found xs n below =
      let (x, here, _) = All-nth (Among xs) xs n (All-Among xs) below in (x, here, ground arith)

  -- The middle is found, from the elements that it is made of.
  middle_found :
      (xs : List p.Float)
      → 0 < length xs
      → (m : p.Float) × (middle xs ≡ ok m)
        × (((length xs % 2 ≡ 1) × (nth xs (length xs / 2) ≡ some m))
            ⊎ ((length xs % 2 ≡ 0)
                × ((a : p.Float) × (b : p.Float) × (nth xs (length xs / 2 - 1) ≡ some a)
                    × (nth xs (length xs / 2) ≡ some b)
                    × (m ≡ midpoint a b))))
  unfolding middle
  middle_found xs some_there =
      let mid = length xs / 2 in
      let (b, b_there, at_mid) = at_found xs mid (omega arith) in
      let (a, a_there, at_before) = at_found xs (mid - 1) (omega arith) in
      elim (Bool-cases (length xs % 2 == 0)) [
        | inl even ↦
            (midpoint a b, ground arith, inr (ground arith, (a, b, a_there, b_there, refl)))
        | inr odd ↦ (b, ground arith, inl (ground arith, b_there))
      ]

  module _ (order : IsOrdered) (rates : List p.Float) (numbers : All IsNumber rates) where
    abbrev in_order : List p.Float
    in_order = sort not_after rates

    not_after_trans :
        (x y z : p.Float)
        → IsNumber x
        → IsNumber y
        → IsNumber z
        → not_after x y ≡ true
        → not_after y z ≡ true
        → not_after x z ≡ true
    not_after_trans x y z nx ny nz xy yz = ground (arith, order.transitive x y z nx ny nz)

    not_after_total : (x y : p.Float) → (not_after x y ≡ true) ⊎ (not_after y x ≡ true)
    not_after_total x y = elim (Bool-cases (p.lt y x)) [
      | inl above ↦ inr (ground (arith, order.asymmetric y x above))
      | inr below ↦ inl (ground arith)
    ]

    not_after_refl : (x : p.Float) → not_after x x ≡ true
    not_after_refl x = elim (not_after_total x x) [ inl h ↦ h | inr h ↦ h ]

    ranked : (n : ℕ) (x : p.Float) → nth in_order n ≡ some x → IsRanked rates n x
    ranked n x there =
        let all = sort-All not_after IsNumber rates numbers in
        let sorted = sort-IsSorted not_after not_after_total rates in
        let up = count_up_to not_after not_after_refl IsNumber not_after_trans in_order n x in
        let from = count_from not_after not_after_refl IsNumber not_after_trans in_order n x in
        record {
          member =
              nth-All (Among rates) in_order n x
                (sort-All not_after (Among rates) rates (All-Among rates)) there;
          not_above =
              omega (arith, up all sorted there, count-sort (λ y. not_after y x) not_after rates);
          not_below = omega (
            arith,
            from all sorted there,
            count-sort (λ y. not_after x y) not_after rates,
            length-sort not_after rates,
          );
        }

  -- Where the order of floats is as documented: the anchor of rates that are numbers, of which there is
  -- one at least, is found, and is their median. With an odd number of rates it is the one that stands in
  -- the middle when they are put in order, and otherwise the midpoint of the two that do.
  pub comp_anchor-IsMedian :
      (order : IsOrdered) (x : p.Float) (xs : List p.Float)
      → All IsNumber (x ∷ xs)
      → (m : p.Float) × (comp_anchor (x ∷ xs) ≡ ok m) × IsMedian (x ∷ xs) m
  unfolding comp_anchor
  comp_anchor-IsMedian order x xs numbers =
      let rates = x ∷ xs in
      let same = length-sort not_after rates in
      let (m, found, middles) = middle_found (sort not_after rates) (omega (arith, same)) in
      let place = ranked order rates numbers in
      (
        m,
        found,
        elim middles [
          | inl (odd, there) ↦ inl (rw same at odd, place _ m (rw same at there))
          | inr (even, (a, b, a_there, b_there, made)) ↦ inr (
            rw same at even,
            (a, b, place _ a (rw same at a_there), place _ b (rw same at b_there), made),
          )
        ],
      )

  pub comp_anchor_found : (xs : List p.Float) → (m : p.Float) × (comp_anchor xs ≡ ok m)
  unfolding comp_anchor
  comp_anchor_found [] = (p.of_ℕ 0, refl)
  comp_anchor_found (x ∷ xs) =
      let (m, found, _) =
        middle_found (sort not_after (x ∷ xs)) (omega (arith, length-sort not_after (x ∷ xs))) in
      (m, found)
