-- ===== src/Prelude/Sums.antt =====
-- Sums of a measure over a list.
use scrob.Prelude.{
  ℕ, ◌+◌, ◌≡◌, refl, Bool, not, List, [], ◌∷◌, ◌++◌, arith, filter, if◌then◌else◌, All, Bool-cases,
  inl, inr,
}
use scrob.Prelude.Sorting.{insert_by, sort_by}

module _ {ℓ} {A : Type ℓ} where
  abbrev pub sum : (A → ℕ) → List A → ℕ
  sum f [] = 0
  sum f (x ∷ xs) = f x + sum f xs

  pub sum-append : (f : A → ℕ) (xs ys : List A) → sum f (xs ++ ys) ≡ sum f xs + sum f ys
  sum-append f [] ys = omega arith
  sum-append f (x ∷ xs) ys = omega (arith, sum-append f xs ys)

  pub sum-filter :
      (f : A → ℕ) (p : A → Bool) (xs : List A)
      → sum f (filter p xs) ≡ sum (λ x. if p x then f x else 0) xs
  sum-filter f p [] = refl
  sum-filter f p (x ∷ xs) = ground (arith, sum-filter f p xs)

  pub sum-parts :
      (f : A → ℕ) (p : A → Bool) (xs : List A)
      → sum f (filter p xs) + sum f (filter (λ x. not (p x)) xs) ≡ sum f xs
  sum-parts f p [] = refl
  sum-parts f p (x ∷ xs) = ground (arith, sum-parts f p xs)

  pub sum-eq : (f g : A → ℕ) (xs : List A) → All (λ x. f x ≡ g x) xs → sum f xs ≡ sum g xs
  sum-eq f g [] h = refl
  sum-eq f g (x ∷ xs) (h, hs) = omega (arith, h, sum-eq f g xs hs)

  module _ (le : A → A → Bool) (f : A → ℕ) where
    insert-sum : (x : A) (xs : List A) → sum f (insert_by le x xs) ≡ f x + sum f xs
    unfolding insert_by
    insert-sum x [] = refl
    insert-sum x (y ∷ ys) = elim (Bool-cases (le x y)) [
      | inl t ↦ rw t refl
      | inr f' ↦ rw f' (omega (arith, insert-sum x ys))
    ]

    pub sort-sum : (xs : List A) → sum f (sort_by le xs) ≡ sum f xs
    unfolding sort_by
    sort-sum [] = refl
    sort-sum (x ∷ xs) = omega (arith, insert-sum x (sort_by le xs), sort-sum xs)
