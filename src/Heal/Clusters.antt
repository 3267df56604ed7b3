-- ===== src/Heal/Clusters.antt =====
-- What a sweep over one identity's events leaves.
use mathlib.Core.Path.{subst}
use scrob.Prelude.{
  ◌⊎◌, sym, ℕ, ◌+◌, ◌≤◌, ◌≡◌, refl, Bool, true, false, not, ◌||◌, List, [], ◌∷◌, ◌++◌, arith,
  filter, map, any, length, if◌then◌else◌, ◌==◌, nat_eq, All, All-append, Bool-cases, inl, inr,
}
use scrob.Watch.{WatchEvent}
use scrob.Heal.{rank_ltb, keeper, resolve, is_apart, sweep}

abbrev pub count_id : ℕ → List WatchEvent → ℕ
count_id i events = length (filter (λ e. e.id == i) events)

abbrev pub count : ℕ → List ℕ → ℕ
count i ids = length (filter (λ j. j == i) ids)

pub count-append : (i : ℕ) (xs ys : List ℕ) → count i (xs ++ ys) ≡ count i xs + count i ys
count-append i [] ys = omega arith
count-append i (x ∷ xs) ys = ground (arith, count-append i xs ys)

pub count_id-append :
    (i : ℕ) (xs ys : List WatchEvent) → count_id i (xs ++ ys) ≡ count_id i xs + count_id i ys
count_id-append i [] ys = omega arith
count_id-append i (x ∷ xs) ys = ground (arith, count_id-append i xs ys)

pub any-append :
    (p : WatchEvent → Bool) (xs ys : List WatchEvent) → any p (xs ++ ys) ≡ (any p xs || any p ys)
any-append p [] ys = refl
any-append p (x ∷ xs) ys = ground (arith, any-append p xs ys)

-- The event that a cluster keeps.
abbrev pub kept : List WatchEvent → List WatchEvent
kept [] = []
kept (e ∷ xs) = keeper e xs ∷ []

keeper-All :
    (P : WatchEvent → Type 0) (e : WatchEvent) (xs : List WatchEvent)
    → P e
    → All P xs
    → P (keeper e xs)
unfolding keeper
keeper-All P e [] p h = p
keeper-All P e (x ∷ xs) p (q, qs) = elim (Bool-cases (rank_ltb x e)) [
  | inl t ↦ rw t (keeper-All P x xs q qs)
  | inr f ↦ rw f (keeper-All P e xs p qs)
]

keeper-completed :
    (e : WatchEvent) (xs : List WatchEvent)
    → any (λ r. r.completed) (e ∷ xs) ≡ true
    → (keeper e xs).completed ≡ true
unfolding keeper
keeper-completed e [] h = ground arith
keeper-completed e (x ∷ xs) h = elim (Bool-cases (rank_ltb x e)) [
  | inl t ↦ rw (t, keeper) (keeper-completed x xs (ground arith))
  | inr f ↦ rw (f, keeper) (keeper-completed e xs (ground arith))
]

keeper-nil : (e : WatchEvent) → keeper e [] ≡ e
unfolding keeper
keeper-nil e = refl

keeper-cons :
    (e x : WatchEvent) (xs : List WatchEvent)
    → (keeper e (x ∷ xs) ≡ keeper x xs) ⊎ (keeper e (x ∷ xs) ≡ keeper e xs)
unfolding keeper
keeper-cons e x xs = elim (Bool-cases (rank_ltb x e)) [
  | inl t ↦ inl (rw (t, keeper) refl)
  | inr f ↦ inr (rw (f, keeper) refl)
]

count_id-skip-first :
    (k : ℕ) (e x : WatchEvent) (xs : List WatchEvent)
    → count_id k (x ∷ xs) ≤ count_id k (e ∷ x ∷ xs)
count_id-skip-first k e x xs = ground arith

count_id-skip-second :
    (k : ℕ) (e x : WatchEvent) (xs : List WatchEvent)
    → count_id k (e ∷ xs) ≤ count_id k (e ∷ x ∷ xs)
count_id-skip-second k e x xs = ground arith

keeper-count : (e : WatchEvent) (xs : List WatchEvent) → 1 ≤ count_id (keeper e xs).id (e ∷ xs)
keeper-count e [] = subst (λ y. 1 ≤ count_id y.id (e ∷ [])) (sym (keeper-nil e)) (ground arith)
keeper-count e (x ∷ xs) = elim (keeper-cons e x xs) [
  | inl t ↦
      subst (λ y. 1 ≤ count_id y.id (e ∷ x ∷ xs)) (sym t)
        (omega (arith, count_id-skip-first (keeper x xs).id e x xs, keeper-count x xs))
  | inr f ↦
      subst (λ y. 1 ≤ count_id y.id (e ∷ x ∷ xs)) (sym f)
        (omega (arith, count_id-skip-second (keeper e xs).id e x xs, keeper-count e xs))
]

given_up :
    (k i : ℕ) (xs : List WatchEvent)
    → count i (map (λ r. r.id) (filter (λ r. not (r.id == k)) xs))
      ≡ (if i == k then 0 else count_id i xs)
given_up k i [] = ground arith
given_up k i (x ∷ xs) = ground (arith, given_up k i xs)

resolve-count :
    (i : ℕ) (cluster : List WatchEvent)
    → count i (resolve cluster) + count_id i (kept cluster) ≤ count_id i cluster
unfolding resolve keeper
resolve-count i [] = omega arith
resolve-count i (e ∷ []) = ground arith
resolve-count i (e ∷ x ∷ xs) =
    let k = keeper e (x ∷ xs) in
    ground (arith, given_up k.id i (e ∷ x ∷ xs), keeper-count e (x ∷ xs))

module _ (tolerance : ℕ) where
  -- The events that a sweep keeps.
  unfoldable pub survive : List WatchEvent → List WatchEvent → List WatchEvent
  survive cluster [] = kept cluster
  survive cluster (e ∷ events) = elim (is_apart tolerance cluster e) [
    | true ↦ kept cluster ++ survive (e ∷ []) events
    | false ↦ survive (cluster ++ e ∷ []) events
  ]

  pub sweep-count :
      (i : ℕ) (cluster events : List WatchEvent)
      → count i (sweep tolerance cluster events) + count_id i (survive cluster events)
        ≤ count_id i cluster + count_id i events
  unfolding sweep survive
  sweep-count i cluster [] = omega (arith, resolve-count i cluster)
  sweep-count i cluster (e ∷ events) = elim (Bool-cases (is_apart tolerance cluster e)) [
    | inl t ↦
        rw (t, sweep, survive)
          (ground (
            arith,
            count-append i (resolve cluster) (sweep tolerance (e ∷ []) events),
            count_id-append i (kept cluster) (survive (e ∷ []) events),
            resolve-count i cluster,
            sweep-count i (e ∷ []) events,
          ))
    | inr f ↦
        rw (f, sweep, survive)
          (ground
            (arith, sweep-count i (cluster ++ e ∷ []) events, count_id-append i cluster (e ∷ [])))
  ]

  kept-completed :
      (cluster : List WatchEvent)
      → any (λ r. r.completed) cluster ≡ true
      → any (λ r. r.completed) (kept cluster) ≡ true
  kept-completed [] h = h
  kept-completed (e ∷ xs) h = ground (arith, keeper-completed e xs)

  pub survive-completed :
      (cluster events : List WatchEvent)
      → (any (λ r. r.completed) cluster || any (λ r. r.completed) events) ≡ true
      → any (λ r. r.completed) (survive cluster events) ≡ true
  unfolding survive
  survive-completed cluster [] h = kept-completed cluster (ground arith)
  survive-completed cluster (e ∷ events) h = elim (Bool-cases (is_apart tolerance cluster e)) [
    | inl t ↦
        rw (t, survive)
          (ground (
            arith,
            any-append (λ r. r.completed) (kept cluster) (survive (e ∷ []) events),
            kept-completed cluster,
            survive-completed (e ∷ []) events,
          ))
    | inr f ↦
        rw (f, survive)
          (survive-completed (cluster ++ e ∷ []) events
            (ground (arith, any-append (λ r. r.completed) cluster (e ∷ []))))
  ]

  kept-All :
      (P : WatchEvent → Type 0) (cluster : List WatchEvent) → All P cluster → All P (kept cluster)
  kept-All P [] h = tt
  kept-All P (e ∷ xs) (p, ps) = (keeper-All P e xs p ps, tt)

  pub survive-All :
      (P : WatchEvent → Type 0) (cluster events : List WatchEvent)
      → All P cluster
      → All P events
      → All P (survive cluster events)
  unfolding survive
  survive-All P cluster [] h k = kept-All P cluster h
  survive-All P cluster (e ∷ events) h (p, ps) = elim (Bool-cases (is_apart tolerance cluster e)) [
    | inl t ↦
        rw (t, survive)
          (All-append P (kept cluster) (survive (e ∷ []) events) (kept-All P cluster h)
            (survive-All P (e ∷ []) events (p, tt) ps))
    | inr f ↦
        rw (f, survive)
          (survive-All P (cluster ++ e ∷ []) events (All-append P cluster (e ∷ []) h (p, tt)) ps)
  ]
