-- ===== src/Base/Dict.antt =====
-- A Python dict keyed by texts, in insertion order.
use mathlib.Core.Path.{◌≡◌, refl}
use mathlib.Core.Logic.{inl, inr}
use mathlib.Core.Bool.{Bool, true, false}
use mathlib.Core.Option.{Option, none, some}
use mathlib.Core.List.{List, [], ◌∷◌}
use native.Mathlib.Omega.{arith}
use Prim.Native.String.{String}
use nemoclaw_smb.Base.Tests.{Option-cases, str_eq, str_eq_iff, if◌then◌else◌}

abbrev pub Dict {ℓ} : Type ℓ → Type ℓ
Dict V = List (String × V)

module _ {ℓ} {V : Type ℓ} where
  -- `d.get(k)`
  unfoldable pub get : String → Dict V → Option V
  get k [] = none
  get k ((j, v) ∷ d) = if str_eq j k then some v else get k d

  -- `k in d`
  unfoldable pub contains : String → Dict V → Bool
  contains k d = elim (get k d) [ none ↦ false | some _ ↦ true ]

  -- `d[k] = v`
  unfoldable pub put : String → V → Dict V → Dict V
  put k v [] = (k, v) ∷ []
  put k v ((j, w) ∷ d) = if str_eq j k then (j, v) ∷ d else (j, w) ∷ put k v d

  -- `{k: v for k, v in d.items() if k != key}`
  unfoldable pub without : String → Dict V → Dict V
  without k [] = []
  without k ((j, v) ∷ d) = if str_eq j k then without k d else (j, v) ∷ without k d

  pub get-put :
      (k j : String) (v : V) (d : Dict V)
      → get j (put k v d) ≡ (if str_eq k j then some v else get j d)
  unfolding get put
  get-put k j v [] = refl
  get-put k j v ((i, w) ∷ d) =
      ground (arith, str_eq_iff k j, str_eq_iff i k, str_eq_iff i j, get-put k j v d)

  pub without-put_new :
      (k : String) (v : V) (d : Dict V) → get k d ≡ none → without k (put k v d) ≡ d
  unfolding get put without
  without-put_new k v [] h = ground (arith, str_eq_iff k k)
  without-put_new k v ((i, w) ∷ d) h = ground (arith, str_eq_iff i k, without-put_new k v d)

  pub contains-put :
      (k j : String) (v : V) (d : Dict V)
      → contains j (put k v d) ≡ (if str_eq k j then true else contains j d)
  unfolding contains
  contains-put k j v d = ground (arith, get-put k j v d)

  -- A key that is there has a value.
  pub get_of_contains :
      (k : String) (d : Dict V) → contains k d ≡ true → (v : V) × (get k d ≡ some v)
  unfolding contains
  get_of_contains k d h = elim (Option-cases (get k d)) [
    | inl e ↦ ground arith
    | inr (v, e) ↦ (v, e)
  ]
