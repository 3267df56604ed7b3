-- ===== src/ImageCache/Stage.antt =====
-- What the pass over one type of images makes of the table.
use scrob.Prelude.{
  ℕ, ◌+◌, ◌≤◌, ◌<◌, ◌≡◌, refl, Bool, true, false, ◌&&◌, List, [], ◌∷◌, arith, ltb, if◌then◌else◌,
  ◌==◌, nat_eq, All, All-map, ◌⊎◌, inl, inr,
}
use scrob.Prelude.Clock.{Time}
use scrob.Prelude.Sums.{sum, sum-append}
use scrob.Prelude.Text.{Text, text_eq}
use scrob.ImageCache.{ImageCache, File, Cache, ondemand, collected, total_size, prune_type}
use scrob.ImageCache.Rows.{count_id, IsUnique}
use scrob.ImageCache.Pruning.{
  evict-total, evict-fits, evict-needed, evict-cut, of_type, candidates, others, gone, spared,
  type-parts, type-sum, gone_of_type, others-of_type, candidates-Sorted, candidates-le,
  returned_total, all_from_zero,
}

abbrev pub one_if : Bool → ℕ
one_if b = if b then 1 else 0

abbrev pub count_type : Text → List ImageCache → ℕ
count_type t rows = sum (λ r. one_if (of_type t r)) rows

abbrev pub size_of : ℕ → List ImageCache → ℕ
size_of i rows = sum (λ r. if r.id == i then r.file_size else 0) rows

-- Of the rows of a type none accessed after `c` is gone and none accessed before `c` is left.
abbrev pub IsCut : Text → Time → List ImageCache → List ImageCache → Type 0
IsCut t c rows rows' =
    (sum (λ r. one_if (of_type t r && ltb c r.last_accessed)) rows'
      ≡ sum (λ r. one_if (of_type t r && ltb c r.last_accessed)) rows)
    × (sum (λ r. one_if (of_type t r && ltb r.last_accessed c)) rows' ≡ 0)

-- Nothing is evicted, whatever is measured, or a row that is gone would exceed the limit again.
abbrev pub IsNeeded : ℕ → List ImageCache → List ImageCache → Type 0
IsNeeded limit rows rows' =
    ((f : ImageCache → ℕ) → sum f rows' ≡ sum f rows)
    ⊎ ((i : ℕ) × (count_id i rows' ≡ 0) × (limit < total_size rows' + size_of i rows))

sum_none : (f : ImageCache → ℕ) (rows : List ImageCache) → All (λ r. f r ≡ 0) rows → sum f rows ≡ 0
sum_none f [] h = refl
sum_none f (r ∷ rows) (h, hs) = omega (arith, h, sum_none f rows hs)

not_after : (b : Bool) (c at : ℕ) → at ≤ c → one_if (b && ltb c at) ≡ 0
not_after b c at h = ground arith

pub other_type :
    (t : Text) (r : ImageCache) (b : Bool) → of_type t r ≡ false → one_if (of_type t r && b) ≡ 0
other_type t r b h = rw h refl

pub apart : (r : ImageCache) → of_type collected r ≡ true → of_type ondemand r ≡ false
apart r h =
    let e : r.image_type ≡ collected = (text_eq.same_iff r.image_type collected).0 h in rw e refl

pub apart' : (r : ImageCache) → of_type ondemand r ≡ true → of_type collected r ≡ false
apart' r h =
    let e : r.image_type ≡ ondemand = (text_eq.same_iff r.image_type ondemand).0 h in rw e refl

pub record Pruned (limit : ℕ) (rows rows' : List ImageCache) : Type 0 where
  pub fits :
      (total_size rows' ≤ limit)
      ⊎ ((count_type ondemand rows' ≡ 0) × (count_type collected rows' ≡ 0))
  pub order :
      (count_type collected rows' ≡ count_type collected rows) ⊎ (count_type ondemand rows' ≡ 0)
  pub needed : IsNeeded limit rows rows'
  pub oldest : ((c : ℕ) × IsCut ondemand c rows rows') × ((c : ℕ) × IsCut collected c rows rows')

pub none_before :
    (t : Text) (rows : List ImageCache)
    → sum (λ r. one_if (of_type t r && ltb r.last_accessed 0)) rows ≡ 0
none_before t [] = refl
none_before t (r ∷ rows) = ground (arith, none_before t rows)

pub uncut : (t : Text) (rows : List ImageCache) → (c : ℕ) × IsCut t c rows rows
uncut t rows = (0, (refl, none_before t rows))

module _ (stuck : File → Bool) (t : Text) (limit : ℕ) (db : Cache) (unique : IsUnique db.rows) where
  abbrev total : ℕ
  total = total_size db.rows

  abbrev result : ℕ × Cache
  result = prune_type stuck t total limit db

  abbrev after : List ImageCache
  after = result.1.rows

  pub measured :
      (f : ImageCache → ℕ) → sum f after + sum f (gone stuck t total limit db) ≡ sum f db.rows
  measured f =
      omega (arith, type-parts stuck t total limit db f, type-sum stuck t total limit db f unique)

  pub after-IsUnique : IsUnique after
  after-IsUnique i = omega (arith, measured (λ r. one_if (r.id == i)), unique i)

  pub untouched :
      (f : ImageCache → ℕ)
      → ((r : ImageCache) → of_type t r ≡ true → f r ≡ 0)
      → sum f after ≡ sum f db.rows
  untouched f h = omega (
    arith,
    measured f,
    sum_none f (gone stuck t total limit db)
        (All-map (gone stuck t total limit db) h (gone_of_type stuck t total limit db)),
  )

  abbrev rest : List ImageCache
  rest = spared stuck limit (candidates stuck t total limit db) total

  summed : (f : ImageCache → ℕ) → sum f after ≡ sum f rest + sum f (others stuck t total limit db)
  summed f = omega (
    arith,
    type-sum stuck t total limit db f unique,
    sum-append f rest (others stuck t total limit db),
  )

  pub returned : result.0 ≡ total_size after
  returned = omega (
    arith,
    returned_total stuck t total limit db,
    evict-total stuck limit (candidates stuck t total limit db) total db.files
        (candidates-le stuck t total limit db (λ r. r.file_size)),
    measured (λ r. r.file_size),
  )

  no_others :
      (f : ImageCache → Bool)
      → sum (λ r. one_if (of_type t r && f r)) (others stuck t total limit db) ≡ 0
  no_others f =
      sum_none (λ r. one_if (of_type t r && f r)) (others stuck t total limit db)
        (All-map (others stuck t total limit db) (λ r h. other_type t r (f r) h)
          (others-of_type stuck t total limit db))

  pub fits : (result.0 ≤ limit) ⊎ (count_type t after ≡ 0)
  fits = elim (evict-fits stuck limit (candidates stuck t total limit db) total db.files) [
    | inl e ↦ inl (omega (arith, e, returned_total stuck t total limit db))
    | inr e ↦ inr (
        let none_spared : count_type t rest ≡ 0 = rw e refl in
        let none_other : count_type t (others stuck t total limit db) ≡ 0 =
          sum_none (λ r. one_if (of_type t r)) (others stuck t total limit db)
            (All-map (others stuck t total limit db) (λ r h. rw h refl)
              (others-of_type stuck t total limit db)) in
        omega (arith, summed (λ r. one_if (of_type t r)), none_spared, none_other))
  ]

  pub needed : IsNeeded limit db.rows after
  needed =
      elim (evict-needed stuck limit (candidates stuck t total limit db) total db.files
        (candidates-le stuck t total limit db (λ r. r.file_size))) [
          | inl e ↦ inl (λ f.
              let z : sum f (gone stuck t total limit db) ≡ 0 = rw e refl in
              omega (arith, measured f, z))
          | inr (i, there, big) ↦ inr (
            i,
            omega (arith, measured (λ r. one_if (r.id == i)), unique i, there),
            omega (
              arith,
              big,
              returned,
              returned_total stuck t total limit db,
              measured (λ r. if r.id == i then r.file_size else 0),
            ),
          )
        ]

  pub cut : (c : ℕ) × IsCut t c db.rows after
  cut =
      let (c, le, old, young) =
        evict-cut stuck limit 0 (candidates stuck t total limit db) total
          (all_from_zero stuck t total limit db (candidates stuck t total limit db))
          (candidates-Sorted stuck t total limit db) in
      (
        c,
        (
          omega (
            arith,
            measured (λ r. one_if (of_type t r && ltb c r.last_accessed)),
            sum_none (λ r. one_if (of_type t r && ltb c r.last_accessed))
                (gone stuck t total limit db)
                (All-map (gone stuck t total limit db)
                  (λ r h. not_after (of_type t r) c r.last_accessed h) old),
          ),
          omega (
            arith,
            summed (λ r. one_if (of_type t r && ltb r.last_accessed c)),
            no_others (λ r. ltb r.last_accessed c),
            sum_none (λ r. one_if (of_type t r && ltb r.last_accessed c)) rest
                (All-map rest (λ r h. not_after (of_type t r) r.last_accessed c h) young),
          ),
        ),
      )
