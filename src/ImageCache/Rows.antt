-- ===== src/ImageCache/Rows.antt =====
-- Deleting rows of the image cache by their ids, in chunks.
use scrob.Prelude.{
  ℕ, ◌+◌, ◌≤◌, ◌≡◌, refl, ap, ◌∙◌, Bool, true, false, not, ◌&&◌, List, [], ◌∷◌, arith, filter, map,
  length, if◌then◌else◌, ◌==◌, nat_eq, contains, All, All-map, Bool-cases, inl, inr,
}
use scrob.Prelude.Sums.{sum, sum-filter, sum-eq}
use scrob.Prelude.Text.{text_eq}
use scrob.PushState.Save.{slices}
use scrob.PushState.Save.Chunks.{concat-slices, listed, listed-concat}
use scrob.ImageCache.{ImageCache, max_in_params, delete_chunks}

abbrev pub count_id : ℕ → List ImageCache → ℕ
count_id i rows = sum (λ r. if r.id == i then 1 else 0) rows

abbrev pub ids_of : List ImageCache → List ℕ
ids_of rows = map (λ r. r.id) rows

filter_same :
    (p q : ImageCache → Bool) (rows : List ImageCache)
    → ((r : ImageCache) → p r ≡ q r)
    → filter p rows ≡ filter q rows
filter_same p q [] h = refl
filter_same p q (r ∷ rows) h = ground (arith, h r, filter_same p q rows h)

filter-filter :
    (p q : ImageCache → Bool) (rows : List ImageCache)
    → filter p (filter q rows) ≡ filter (λ r. q r && p r) rows
filter-filter p q [] = refl
filter-filter p q (r ∷ rows) = ground (arith, filter-filter p q rows)

delete_chunks-listed :
    (chunks : List (List ℕ)) (rows : List ImageCache)
    → delete_chunks chunks rows ≡ filter (λ r. not (listed chunks r.id)) rows
unfolding delete_chunks listed
delete_chunks-listed [] [] = refl
delete_chunks-listed [] (r ∷ rows) = ap (λ rs. r ∷ rs) (delete_chunks-listed [] rows)
delete_chunks-listed (ids ∷ chunks) rows =
    delete_chunks-listed chunks (filter (λ r. not (contains ids r.id)) rows)
    ∙ filter-filter (λ r. not (listed chunks r.id)) (λ r. not (contains ids r.id)) rows
    ∙ filter_same (λ r. not (contains ids r.id) && not (listed chunks r.id))
        (λ r. not (listed (ids ∷ chunks) r.id)) rows (λ r. ground arith)

-- Deleting in chunks is deleting at once.
deleted :
    (ids : List ℕ) (rows : List ImageCache)
    → delete_chunks (slices (length ids) max_in_params ids) rows
      ≡ filter (λ r. not (contains ids r.id)) rows
deleted ids rows =
    delete_chunks-listed (slices (length ids) max_in_params ids) rows
    ∙ filter_same (λ r. not (listed (slices (length ids) max_in_params ids) r.id))
        (λ r. not (contains ids r.id)) rows
        (λ r. ap not (
          listed-concat (slices (length ids) max_in_params ids) r.id
          ∙ ap (λ xs. contains xs r.id) (concat-slices (length ids) 29999 ids (omega arith))))

abbrev pub IsUnique : List ImageCache → Type 0
IsUnique rows = (i : ℕ) → count_id i rows ≤ 1

contains-count :
    (i : ℕ) (rows : List ImageCache) → contains (ids_of rows) i ≡ true → 1 ≤ count_id i rows
unfolding contains
contains-count i [] h = ground arith
contains-count i (r ∷ rows) h = ground (arith, contains-count i rows)

once :
    (i : ℕ) (ev : List ImageCache) (r : ImageCache) (rest : List ImageCache)
    → r.id ≡ i
    → count_id i ev + count_id i (r ∷ rest) ≤ 1
    → contains (ids_of ev) i ≡ false
once i ev r rest e h = elim (Bool-cases (contains (ids_of ev) i)) [
  | inr f ↦ f
  | inl t ↦ ground (arith, contains-count i ev t)
]

rest_once :
    (i : ℕ) (ev : List ImageCache) (r : ImageCache) (rest : List ImageCache)
    → count_id i ev + count_id i (r ∷ rest) ≤ 1
    → count_id i ev + count_id i rest ≤ 1
rest_once i ev r rest h = ground arith

-- Rows apart from the evicted ones are not deleted with them.
all_apart :
    (ev rest : List ImageCache)
    → ((i : ℕ) → count_id i ev + count_id i rest ≤ 1)
    → All (λ r. contains (ids_of ev) r.id ≡ false) rest
all_apart ev [] h = tt
all_apart ev (r ∷ rest) h =
    (once r.id ev r rest refl (h r.id), all_apart ev rest (λ i. rest_once i ev r rest (h i)))

self_listed : (r : ImageCache) (ev : List ImageCache) → contains (ids_of (r ∷ ev)) r.id ≡ true
unfolding contains
self_listed r ev = ground arith

more_listed :
    (r x : ImageCache) (ev : List ImageCache)
    → contains (ids_of ev) x.id ≡ true
    → contains (ids_of (r ∷ ev)) x.id ≡ true
unfolding contains
more_listed r x ev h = ground arith

all_listed : (ev : List ImageCache) → All (λ r. contains (ids_of ev) r.id ≡ true) ev
all_listed [] = tt
all_listed (r ∷ ev) = (self_listed r ev, All-map ev (λ x. more_listed r x ev) (all_listed ev))

-- Deleting the rows of a part by their ids takes just that part away, by any measure.
module _ (f : ImageCache → ℕ) (ev rest rows : List ImageCache)
    (parts : (g : ImageCache → ℕ) → sum g ev + sum g rest ≡ sum g rows)
    (unique : IsUnique rows) where
  abbrev left : ImageCache → ℕ
  left r = if not (contains (ids_of ev) r.id) then f r else 0

  gone : (r : ImageCache) → contains (ids_of ev) r.id ≡ true → left r ≡ 0
  gone r h = ground arith

  stays : (r : ImageCache) → contains (ids_of ev) r.id ≡ false → left r ≡ f r
  stays r h = ground arith

  none_left : All (λ r. left r ≡ 0) ev
  none_left = All-map ev (λ r. gone r) (all_listed ev)

  all_left : All (λ r. left r ≡ f r) rest
  all_left =
      All-map rest (λ r. stays r)
        (all_apart ev rest (λ i. omega (arith, parts (λ r. if r.id == i then 1 else 0), unique i)))

  sum-zero : (rows : List ImageCache) → sum (λ r. 0) rows ≡ 0
  sum-zero [] = refl
  sum-zero (r ∷ rows) = omega (arith, sum-zero rows)

  pub deleted-sum :
      sum f (delete_chunks (slices (length (ids_of ev)) max_in_params (ids_of ev)) rows)
      ≡ sum f rest
  deleted-sum = rw (deleted (ids_of ev) rows) (
      omega (
        arith,
        sum-filter f (λ r. not (contains (ids_of ev) r.id)) rows,
        parts left,
        sum-eq left (λ r. 0) ev none_left,
        sum-zero ev,
        sum-eq left f rest all_left,
      ))
