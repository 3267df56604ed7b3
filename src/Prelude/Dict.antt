-- ===== src/Prelude/Dict.antt =====
-- Python's `dict` as an association list in insertion order.
use mathlib.Core.Path.{◌≡◌, refl}
use mathlib.Core.Bool.{Bool, false, ◌||◌}
use mathlib.Core.List.{List, [], ◌∷◌}
use mathlib.Core.Option.{Option, none, some}
use native.Mathlib.Omega.{arith}
use mathlib.Core.Logic.{inl, inr}
use scrob.Prelude.Tests.{Keyed, ◌==◌, if◌then◌else◌, Bool-cases}
use scrob.Prelude.Lists.{filter}

abbrev pub Dict {ℓ κ} : Type ℓ → Type κ → Type (ℓ ⊔ κ)
Dict K V = List (K × V)

module _ {ℓ κ} {K : Type ℓ} {V : Type κ} ⦃e : Keyed K⦄ where
  -- `d.get(k)`
  unfoldable pub get : Dict K V → K → Option V
  get [] k = none
  get ((j, v) ∷ d) k = if j == k then some v else get d k

  -- `d[k] = v`: a key that is there keeps its place.
  unfoldable pub put : K → V → Dict K V → Dict K V
  put k v [] = (k, v) ∷ []
  put k v ((j, w) ∷ d) = if j == k then (j, v) ∷ d else (j, w) ∷ put k v d

  -- `del d[k]`
  unfoldable pub remove : K → Dict K V → Dict K V
  remove k [] = []
  remove k ((j, w) ∷ d) = let rest = remove k d in if j == k then rest else (j, w) ∷ rest

  pub get-put :
      (k : K) (v : V) (d : Dict K V) (j : K)
      → get (put k v d) j ≡ (if k == j then some v else get d j)
  unfolding get put
  get-put k v [] j = refl
  get-put k v ((i, w) ∷ d) j =
      ground (arith, e.same_iff k j, e.same_iff i k, e.same_iff i j, get-put k v d j)

  pub get-remove :
      (k : K) (d : Dict K V) (j : K) → get (remove k d) j ≡ (if k == j then none else get d j)
  unfolding get remove
  get-remove k [] j = ground arith
  get-remove k ((i, w) ∷ d) j =
      ground (arith, e.same_iff k j, e.same_iff i k, e.same_iff i j, get-remove k d j)

  -- A dict has each key once.
  unfoldable pub has_key : Dict K V → K → Bool
  has_key [] k = false
  has_key ((j, v) ∷ d) k = j == k || has_key d k

  abbrev pub DistinctKeys : Dict K V → Type 0
  DistinctKeys [] = Unit
  DistinctKeys ((j, v) ∷ d) = (has_key d j ≡ false) × DistinctKeys d

  pub get-eq-none : (d : Dict K V) (k : K) → has_key d k ≡ false → get d k ≡ none
  unfolding get has_key
  get-eq-none [] k h = refl
  get-eq-none ((j, v) ∷ d) k h = ground (arith, get-eq-none d k)

  has_key-filter :
      (p : K × V → Bool) (d : Dict K V) (k : K)
      → has_key d k ≡ false
      → has_key (filter p d) k ≡ false
  unfolding has_key
  has_key-filter p [] k h = refl
  has_key-filter p ((j, v) ∷ d) k h = ground (arith, has_key-filter p d k)

  pub DistinctKeys-filter :
      (p : K × V → Bool) (d : Dict K V) → DistinctKeys d → DistinctKeys (filter p d)
  DistinctKeys-filter p [] h = tt
  DistinctKeys-filter p ((j, v) ∷ d) (h, hs) = elim (Bool-cases (p (j, v))) [
    | inl t ↦ rw t (has_key-filter p d j h, DistinctKeys-filter p d hs)
    | inr f ↦ rw f (DistinctKeys-filter p d hs)
  ]

  -- Deleting entries that fail a test, in a loop over the items.
  pub get-filter :
      (p : K × V → Bool) (d : Dict K V) (k : K)
      → DistinctKeys d
      → get (filter p d) k
        ≡ elim (get d k) [ none ↦ none | some v ↦ if p (k, v) then some v else none ]
  unfolding get
  get-filter p [] k h = refl
  get-filter p ((j, v) ∷ d) k (h, hs) = ground (
    arith,
    e.same_iff j k,
    get-filter p d k hs,
    get-eq-none d j h,
    get-eq-none (filter p d) j (has_key-filter p d j h),
  )

  pub has_key-put :
      (k : K) (v : V) (d : Dict K V) (j : K) → has_key (put k v d) j ≡ (k == j || has_key d j)
  unfolding has_key put
  has_key-put k v [] j = refl
  has_key-put k v ((i, w) ∷ d) j =
      ground (arith, e.same_iff i k, e.same_iff i j, e.same_iff k j, has_key-put k v d j)

  pub DistinctKeys-put : (k : K) (v : V) (d : Dict K V) → DistinctKeys d → DistinctKeys (put k v d)
  unfolding put has_key
  DistinctKeys-put k v [] h = (refl, tt)
  DistinctKeys-put k v ((j, w) ∷ d) (h, hs) = elim (Bool-cases (j == k)) [
    | inl t ↦ rw t (h, hs)
    | inr f ↦ rw f (
      ground (arith, has_key-put k v d j, e.same_iff k j, e.same_iff j k),
      DistinctKeys-put k v d hs,
    )
  ]
