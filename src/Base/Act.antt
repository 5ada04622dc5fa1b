-- ===== src/Base/Act.antt =====
-- Python code that mutates state and raises: the state comes back after a raise too, since what was
-- written stays written.
use Prim.Native.String.{String}
use mathlib.Core.Path.{◌≡◌, refl, sym, ◌∙◌}
use mathlib.Core.Logic.{◌⊎◌, inl, inr}
use native.Mathlib.Omega.{arith}
use mathlib.Core.Bool.{Bool, true, false}

-- The exceptions that the modelled code raises. Messages are kept where the caller reads them.
pub data Error : Type 0 where
  value_error key_error index_error type_error runtime_error os_error permission_error config_error
        attribute_error :
      Error
  approval_required : String → Error
  http_error : Error
  service_error : Error

pub data Result {ℓ} (A : Type ℓ) : Type ℓ where
  ok : A → Result A
  err : Error → Result A

abbrev pub Act : Type 0 → Type 0 → Type 0
Act S A = S → Result A × S

module _ {S A : Type 0} where
  abbrev pub pure : A → Act S A
  pure a s = (ok a, s)

  abbrev pub raise : Error → Act S A
  raise e s = (err e, s)

  abbrev pub gets : (S → A) → Act S A
  gets f s = (ok (f s), s)

  abbrev pub lift : Result A → Act S A
  lift r s = (r, s)

infixl 5 ◌>>=◌ ◌>>◌
abbrev pub ◌>>=◌ : {S A B : Type 0} → Act S A → (A → Act S B) → Act S B
◌>>=◌ m f s = let (r, s') = m s in elim r [ ok a ↦ f a s' | err e ↦ (err e, s') ]

abbrev pub ◌>>◌ : {S A B : Type 0} → Act S A → Act S B → Act S B
m >> k = m >>= λ _. k

abbrev pub modify : {S : Type 0} → (S → S) → Act S (Unit {0})
modify f s = (ok tt, f s)

abbrev pub raise_if : {S : Type 0} → Bool → Error → Act S (Unit {0})
raise_if true e = raise e
raise_if false e = pure tt

pub Result-cases :
    {S A : Type 0} (m : Result A × S)
    → ((a : A) × (s : S) × (m ≡ (ok a, s))) ⊎ ((e : Error) × (s : S) × (m ≡ (err e, s)))
Result-cases (ok a, s) = inl (a, s, refl)
Result-cases (err e, s) = inr (e, s, refl)

pub Plain-cases : {A : Type 0} (r : Result A) → ((a : A) × (r ≡ ok a)) ⊎ ((x : Error) × (r ≡ err x))
Plain-cases (ok a) = inl (a, refl)
Plain-cases (err x) = inr (x, refl)

pub pure_inv :
    {S A : Type 0} {a b : A} {s s' : S}
    → ◌≡◌ {A = Result A × S} (ok a, s) (ok b, s')
    → (a ≡ b) × (s ≡ s')
pure_inv h = (cc h, cc h)

pub ok_inv : {A : Type 0} {a b : A} → ◌≡◌ {A = Result A} (ok a) (ok b) → a ≡ b
ok_inv h = cc h

-- Running a bind, and what a bind that succeeded has run.
module _ {S A B : Type 0} (m : Act S A) (f : A → Act S B) (s : S) where
  pub bind_ok : {a : A} {s1 : S} → m s ≡ (ok a, s1) → (m >>= f) s ≡ f a s1
  bind_ok e = ground arith

  pub bind_err : {x : Error} {s1 : S} → m s ≡ (err x, s1) → (m >>= f) s ≡ (err x, s1)
  bind_err e = ground arith

  pub bind_inv :
      {b : B} {s' : S}
      → (m >>= f) s ≡ (ok b, s')
      → (a : A) × (s1 : S) × (m s ≡ (ok a, s1)) × (f a s1 ≡ (ok b, s'))
  bind_inv h = elim (Result-cases (m s)) [
    | inl (a, s1, e) ↦ (a, s1, e, sym (bind_ok e) ∙ h)
    | inr (x, s1, e) ↦ ground arith
  ]
