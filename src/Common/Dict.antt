-- ===== src/Common/Dict.antt =====
-- Python's `dict`: an association list in order of insertion, with one entry for each key.
use mathlib.Core.Path.{◌≡◌, refl}
use mathlib.Core.Logic.{inl, inr}
use mathlib.Core.Bool.{Bool, true, false}
use mathlib.Core.Option.{Option, none, some}
use mathlib.Core.List.{List, [], ◌∷◌}
use native.Mathlib.Omega.{arith}
use aep_python.Common.Tests.{if◌then◌else◌, Bool-cases}
use aep_python.Common.Equality.{Eq, ◌==◌, beq_sym}

abbrev pub Dict {ℓ κ} : Type ℓ → Type κ → Type (ℓ ⊔ κ)
Dict K V = List (K × V)

module _ {ℓ κ} {K : Type ℓ} {V : Type κ} ⦃e : Eq K⦄ where
  -- `d.get(k)`
  unfoldable pub get : K → Dict K V → Option V
  get k [] = none
  get k ((j, v) ∷ d) = if j == k then some v else get k d

  -- `k in d`
  abbrev pub has : K → Dict K V → Bool
  has k d = elim (get k d) [ none ↦ false | some _ ↦ true ]

  -- `d[k] = v`
  unfoldable pub put : K → V → Dict K V → Dict K V
  put k v [] = (k, v) ∷ []
  put k v ((j, w) ∷ d) = if j == k then (j, v) ∷ d else (j, w) ∷ put k v d

  -- `d.pop(k)`
  unfoldable pub remove : K → Dict K V → Dict K V
  remove k [] = []
  remove k ((j, w) ∷ d) = if j == k then d else (j, w) ∷ remove k d

  -- `{k: v for k, v in d.items() if p(v)}`
  unfoldable pub retain : (V → Bool) → Dict K V → Dict K V
  retain p [] = []
  retain p ((j, w) ∷ d) = if p w then (j, w) ∷ retain p d else retain p d

  -- no key stands twice
  abbrev pub IsDict : Dict K V → Type κ
  IsDict [] = Unit
  IsDict ((j, w) ∷ d) = (get j d ≡ none) × IsDict d

  pub get-put :
      (k j : K) (v : V) (d : Dict K V) → get j (put k v d) ≡ (if k == j then some v else get j d)
  unfolding get put
  get-put k j v [] = refl
  get-put k j v ((i, w) ∷ d) =
      ground (arith, e.test_iff k j, e.test_iff i k, e.test_iff i j, get-put k j v d)

  pub get-put_self : (k : K) (v : V) (d : Dict K V) → get k (put k v d) ≡ some v
  get-put_self k v d = ground (arith, get-put k k v d, e.test_iff k k)

  pub get-put_ne : (k j : K) (v : V) (d : Dict K V) → ¬ (k ≡ j) → get j (put k v d) ≡ get j d
  get-put_ne k j v d h = ground (arith, get-put k j v d, e.test_iff k j)

  pub get-remove :
      (k j : K) (d : Dict K V) → IsDict d → get j (remove k d) ≡ (if k == j then none else get j d)
  unfolding get remove
  get-remove k j [] u = ground arith
  get-remove k j ((i, w) ∷ d) (fresh, u) =
      ground (arith, e.test_iff k j, e.test_iff i k, e.test_iff i j, get-remove k j d u)

  -- a kept entry was there and passes the test
  pub get-retain :
      (p : V → Bool) (k : K) (d : Dict K V)
      → IsDict d
      → get k (retain p d) ≡ elim (get k d) [ none ↦ none | some v ↦ if p v then some v else none ]
  unfolding get retain
  get-retain p k [] u = refl
  get-retain p k ((i, w) ∷ d) (fresh, u) = ground (arith, e.test_iff i k, get-retain p k d u)

  get-none-put :
      (k j : K) (v : V) (d : Dict K V)
      → ((k == j) ≡ false)
      → get j d ≡ none
      → get j (put k v d) ≡ none
  get-none-put k j v d h n = ground (arith, get-put k j v d)

  pub put-IsDict : (k : K) (v : V) (d : Dict K V) → IsDict d → IsDict (put k v d)
  unfolding put get
  put-IsDict k v [] u = (refl, tt)
  put-IsDict k v ((i, w) ∷ d) (fresh, u) = elim (Bool-cases (i == k)) [
    | inl same ↦ rw same (fresh, u)
    | inr other ↦ rw other (get-none-put k i v d (beq_sym i k other) fresh, put-IsDict k v d u)
  ]

  pub retain-IsDict : (p : V → Bool) (d : Dict K V) → IsDict d → IsDict (retain p d)
  unfolding retain
  retain-IsDict p [] u = tt
  retain-IsDict p ((i, w) ∷ d) (fresh, u) = elim (Bool-cases (p w)) [
    | inl kept ↦ rw kept (rw (get-retain p i d u, fresh) refl, retain-IsDict p d u)
    | inr gone ↦ rw gone (retain-IsDict p d u)
  ]

  get-none-remove : (k j : K) (d : Dict K V) → IsDict d → get j d ≡ none → get j (remove k d) ≡ none
  get-none-remove k j d u n = ground (arith, get-remove k j d u)

  pub remove-IsDict : (k : K) (d : Dict K V) → IsDict d → IsDict (remove k d)
  unfolding remove
  remove-IsDict k [] u = tt
  remove-IsDict k ((i, w) ∷ d) (fresh, u) = elim (Bool-cases (i == k)) [
    | inl same ↦ rw same u
    | inr other ↦ rw other (get-none-remove k i d u fresh, remove-IsDict k d u)
  ]
