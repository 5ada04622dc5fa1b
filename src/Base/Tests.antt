-- ===== src/Base/Tests.antt =====
-- Boolean tests on numbers and texts, the conditional, and case splits that keep the equation.
use Prim.Native.Nat.{ℕ, compare, Ordering}
use Prim.Native.Char.{code}
use Prim.Native.String.{String, ◌++◌ as str_append, compare as str_compare}
use mathlib.Core.Path.{◌≡◌, refl}
use mathlib.Core.Logic.{◌↔◌, ◌⊎◌, inl, inr}
use mathlib.Core.Bool.{Bool, true, false}
use mathlib.Core.Option.{Option, none, some}
use mathlib.Core.List.{List, [], ◌∷◌}
use native.Mathlib.Omega.{arith}
use text.Mathlib.Text.{◌==◌ as text_eq, find?}
use text.Mathlib.TextEquality.{eq_iff}

abbrev pub ltb : ℕ → ℕ → Bool
ltb a b = elim (compare a b) [ Ordering.lt ↦ true | _ ↦ false ]

abbrev pub leb : ℕ → ℕ → Bool
leb a b = elim (compare a b) [ Ordering.gt ↦ false | _ ↦ true ]

infix 50 ◌==◌
abbrev pub ◌==◌ : ℕ → ℕ → Bool
a == b = elim (compare a b) [ Ordering.eq ↦ true | _ ↦ false ]

abbrev pub str_eq : String → String → Bool
str_eq = text_eq

pub str_eq_iff : (s t : String) → (str_eq s t ≡ true) ↔ (s ≡ t)
str_eq_iff s t = eq_iff s t

infix 1 if◌then◌else◌
abbrev pub if◌then◌else◌ {ℓ} : {A : Type ℓ} → Bool → A → A → A
if true then x else _ = x
if false then _ else y = y

-- The text of an f-string from its parts.
abbrev pub concat : List String → String
concat [] = ""
concat (s ∷ r) = str_append s (concat r)

-- `s in list`
unfoldable pub member : String → List String → Bool
member s [] = false
member s (t ∷ ts) = if str_eq s t then true else member s ts

pub Bool-cases : (b : Bool) → (b ≡ true) ⊎ (b ≡ false)
Bool-cases true = inl refl
Bool-cases false = inr refl

pub Option-cases {ℓ} : {A : Type ℓ} (o : Option A) → (o ≡ none) ⊎ ((a : A) × (o ≡ some a))
Option-cases none = inl refl
Option-cases (some a) = inr (a, refl)

pub ==_iff : (a b : ℕ) → ((a == b) ≡ true) ↔ (a ≡ b)
==_iff a b = ground arith

-- `s <= t` on texts
abbrev pub str_le : String → String → Bool
str_le s t = elim (str_compare s t) [ Ordering.gt ↦ false | _ ↦ true ]

-- `part in text`
abbrev pub has_part : String → String → Bool
has_part part text = elim (find? text part) [ none ↦ false | some _ ↦ true ]

-- What follows a prefix in a text that starts with it.
unfoldable pub after_prefix : String → String → Option String
after_prefix String.[] s = some s
after_prefix (String.◌∷◌ c q) String.[] = none
after_prefix (String.◌∷◌ c q) (String.◌∷◌ d s) =
    let rest = after_prefix q s in if code c == code d then rest else none

-- `text.startswith(prefix)`
abbrev pub starts_with : String → String → Bool
starts_with prefix text = elim (after_prefix prefix text) [ none ↦ false | some _ ↦ true ]

-- `text.removeprefix(prefix)`
abbrev pub remove_prefix : String → String → String
remove_prefix prefix text = elim (after_prefix prefix text) [ none ↦ text | some s ↦ s ]

-- `text.rstrip("/")`
unfoldable pub rstrip_slash : String → String
rstrip_slash String.[] = ""
rstrip_slash (String.◌∷◌ c s) =
    let rest = rstrip_slash s in
    if text_eq rest "" then if code c == 47 then "" else String.◌∷◌ c rest else String.◌∷◌ c rest
