-- ===== src/Prelude/Sorting.antt =====
-- `sorted(xs, key=...)` and `order_by`: the insertion sort, which is stable as they are.
use scrob.Prelude.{
  ◌≡◌, refl, Bool, true, false, ◌||◌, List, [], ◌∷◌, arith, filter, any, length, if◌then◌else◌, All,
  All-map, Bool-cases, inl, inr,
}

module _ {ℓ} {A : Type ℓ} (le : A → A → Bool) where
  unfoldable pub insert_by : A → List A → List A
  insert_by x [] = x ∷ []
  insert_by x (y ∷ ys) = let rest = insert_by x ys in if le x y then x ∷ y ∷ ys else y ∷ rest

  unfoldable pub sort_by : List A → List A
  unfolding insert_by
  sort_by [] = []
  sort_by (x ∷ xs) = insert_by x (sort_by xs)

  insert-All {κ} : (P : A → Type κ) (x : A) (xs : List A) → P x → All P xs → All P (insert_by x xs)
  unfolding insert_by
  insert-All P x [] p ps = (p, tt)
  insert-All P x (y ∷ ys) p (q, qs) = elim (Bool-cases (le x y)) [
    | inl t ↦ rw t (p, (q, qs))
    | inr f ↦ rw f (q, insert-All P x ys p qs)
  ]

  pub sort-All {κ} : (P : A → Type κ) (xs : List A) → All P xs → All P (sort_by xs)
  unfolding sort_by
  sort-All P [] h = tt
  sort-All P (x ∷ xs) (p, ps) = insert-All P x (sort_by xs) p (sort-All P xs ps)

  insert-any : (p : A → Bool) (x : A) (xs : List A) → any p (insert_by x xs) ≡ (p x || any p xs)
  unfolding insert_by
  insert-any p x [] = refl
  insert-any p x (y ∷ ys) = ground (arith, insert-any p x ys)

  pub sort-any : (p : A → Bool) (xs : List A) → any p (sort_by xs) ≡ any p xs
  unfolding sort_by
  sort-any p [] = refl
  sort-any p (x ∷ xs) = ground (arith, insert-any p x (sort_by xs), sort-any p xs)

  insert-count :
      (p : A → Bool) (x : A) (xs : List A)
      → length (filter p (insert_by x xs)) ≡ length (filter p (x ∷ xs))
  unfolding insert_by
  insert-count p x [] = refl
  insert-count p x (y ∷ ys) = ground (arith, insert-count p x ys)

  pub sort-count :
      (p : A → Bool) (xs : List A) → length (filter p (sort_by xs)) ≡ length (filter p xs)
  unfolding sort_by
  sort-count p [] = refl
  sort-count p (x ∷ xs) = ground (arith, insert-count p x (sort_by xs), sort-count p xs)

  abbrev pub Sorted : List A → Type 0
  Sorted [] = Unit
  Sorted (x ∷ xs) = All (λ y. le x y ≡ true) xs × Sorted xs

  module _ (total : (x y : A) → le x y ≡ false → le y x ≡ true)
      (trans : (x y z : A) → le x y ≡ true → le y z ≡ true → le x z ≡ true) where
    insert-Sorted : (x : A) (xs : List A) → Sorted xs → Sorted (insert_by x xs)
    unfolding insert_by
    insert-Sorted x [] h = (tt, tt)
    insert-Sorted x (y ∷ ys) (h, hs) = elim (Bool-cases (le x y)) [
      | inl t ↦ rw t ((t, All-map ys (λ z. trans x y z t) h), (h, hs))
      | inr f ↦ rw f (insert-All (λ z. le y z ≡ true) x ys (total x y f) h, insert-Sorted x ys hs)
    ]

    pub sort-Sorted : (xs : List A) → Sorted (sort_by xs)
    unfolding sort_by
    sort-Sorted [] = tt
    sort-Sorted (x ∷ xs) = insert-Sorted x (sort_by xs) (sort-Sorted xs)
