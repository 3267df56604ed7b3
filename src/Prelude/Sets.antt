-- ===== src/Prelude/Sets.antt =====
-- Python sets as lists that are read through `contains`; `set_of` drops repetitions.
use mathlib.Core.Path.{◌≡◌, refl}
use mathlib.Core.Bool.{Bool, false, not, ◌&&◌, ◌||◌}
use mathlib.Core.List.{List, [], ◌∷◌, ◌++◌}
use native.Mathlib.Omega.{arith}
use scrob.Prelude.Tests.{Keyed, ◌==◌, if◌then◌else◌}
use scrob.Prelude.Lists.{filter}

module _ {ℓ} {A : Type ℓ} ⦃e : Keyed A⦄ where
  -- `a in xs`
  unfoldable pub contains : List A → A → Bool
  contains [] member = false
  contains (first ∷ rest) member = member == first || contains rest member

  -- `xs.add(a)`
  unfoldable pub add : A → List A → List A
  unfolding contains
  add a xs = if contains xs a then xs else a ∷ xs

  -- `set(xs)`
  unfoldable pub set_of : List A → List A
  unfolding add
  set_of [] = []
  set_of (x ∷ xs) = add x (set_of xs)

  -- `xs - ys`, `xs & ys`, `xs | ys`
  abbrev pub difference : List A → List A → List A
  difference xs ys = filter (λ a. not (contains ys a)) xs

  abbrev pub intersection : List A → List A → List A
  intersection xs ys = filter (contains ys) xs

  unfoldable pub union : List A → List A → List A
  unfolding add
  union [] ys = ys
  union (x ∷ xs) ys = add x (union xs ys)

  pub contains-add :
      (x : A) (xs : List A) (a : A) → contains (add x xs) a ≡ (a == x || contains xs a)
  unfolding add
  contains-add x xs a = ground (arith, e.same_iff a x)

  pub contains-set_of : (xs : List A) (a : A) → contains (set_of xs) a ≡ contains xs a
  unfolding set_of
  contains-set_of [] a = refl
  contains-set_of (x ∷ xs) a = ground (arith, contains-add x (set_of xs) a, contains-set_of xs a)

  pub contains-filter :
      (p : A → Bool) (xs : List A) (a : A) → contains (filter p xs) a ≡ (contains xs a && p a)
  unfolding contains
  contains-filter p [] a = refl
  contains-filter p (x ∷ xs) a = ground (arith, e.same_iff a x, contains-filter p xs a)

  pub contains-union :
      (xs ys : List A) (a : A) → contains (union xs ys) a ≡ (contains xs a || contains ys a)
  unfolding union
  contains-union [] ys a = refl
  contains-union (x ∷ xs) ys a =
      ground (arith, contains-add x (union xs ys) a, contains-union xs ys a)

  pub contains-append :
      (xs ys : List A) (a : A) → contains (xs ++ ys) a ≡ (contains xs a || contains ys a)
  unfolding contains
  contains-append [] ys a = refl
  contains-append (x ∷ xs) ys a = ground (arith, contains-append xs ys a)
