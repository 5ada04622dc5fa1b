-- ===== src/Base/Texts.antt =====
-- The order of texts is total.
use Prim.Native.Nat.{ℕ, compare as compare_ℕ, Ordering}
use Prim.Native.Char.{code}
use Prim.Native.String.{String, compare, then}
use Prim.Native.String.compare
use mathlib.Core.Path.{◌≡◌, refl}
use mathlib.Core.Logic.{◌⊎◌, inl, inr}
use mathlib.Core.Bool.{true, false}
use native.Mathlib.Omega.{arith}
use nemoclaw_smb.Base.Tests.{str_le}

-- `gt` one way round is `lt` the other way round.
abbrev IsFlip : Ordering → Ordering → Type 0
IsFlip Ordering.gt o = o ≡ Ordering.lt
IsFlip Ordering.lt o = o ≡ Ordering.gt
IsFlip Ordering.eq o = o ≡ Ordering.eq

compare_ℕ-IsFlip : (m n : ℕ) → IsFlip (compare_ℕ m n) (compare_ℕ n m)
compare_ℕ-IsFlip m n = ground arith

then-IsFlip : (a b a' b' : Ordering) → IsFlip a a' → IsFlip b b' → IsFlip (then a b) (then a' b')
then-IsFlip a b a' b' h k = ground arith

compare-IsFlip : (s t : String) → IsFlip (compare s t) (compare t s)
compare-IsFlip String.[] String.[] = rw compare.nil-nil refl
compare-IsFlip String.[] (String.◌∷◌ d t) = rw (compare.nil-cons d t, compare.cons-nil d t) refl
compare-IsFlip (String.◌∷◌ c s) String.[] = rw (compare.cons-nil c s, compare.nil-cons c s) refl
compare-IsFlip (String.◌∷◌ c s) (String.◌∷◌ d t) =
    rw (compare.cons-cons c d s t, compare.cons-cons d c t s)
      (then-IsFlip (compare_ℕ (code c) (code d)) (compare s t) _ _
        (compare_ℕ-IsFlip (code c) (code d)) (compare-IsFlip s t))

pub str_le_total : (s t : String) → (str_le s t ≡ true) ⊎ (str_le t s ≡ true)
str_le_total s t = of_flip (compare s t) (compare t s) (compare-IsFlip s t)
  where
    of_flip :
        (a b : Ordering)
        → IsFlip a b
        → ((elim a [ Ordering.gt ↦ false | _ ↦ true ]) ≡ true)
          ⊎ ((elim b [ Ordering.gt ↦ false | _ ↦ true ]) ≡ true)
    of_flip Ordering.gt b h = inr (ground arith)
    of_flip Ordering.lt b h = inl refl
    of_flip Ordering.eq b h = inl refl
