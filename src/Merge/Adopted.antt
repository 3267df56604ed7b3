-- ===== src/Merge/Adopted.antt =====
-- What `adopt` leaves of a table.
use mathlib.Core.Path.{subst}
use scrob.Prelude.{
  sym, ℕ, ◌≤◌, ◌≡◌, refl, Bool, true, false, ◌||◌, List, [], ◌∷◌, arith, filter, any, length,
  if◌then◌else◌, ◌==◌, nat_eq, All, All-filter, filter-All, Bool-cases, inl, inr, ◌∙◌,
}
use scrob.Merge.{Owned, adopt_row, adopt_rows, at_media, adopt}
use scrob.Merge.Adopt.{
  has, count, has_id, DistinctIds, is_only, Ready, is_pending, row-has, row-has_other, row-count,
  row-pending, row-Ready,
}

-- A row of the loop, at `d` and alone with its id.
abbrev Waiting : ℕ → List Owned → Owned → Type 0
Waiting d t row = ((row.media_id == d) ≡ true) × Ready row t

module _ (c d : ℕ) (apart : (c == d) ≡ false) where
  Waiting-next :
      (row : Owned) (rows t : List Owned)
      → has_id row.id rows ≡ false
      → All (Waiting d t) rows
      → All (Waiting d (adopt_row c row t)) rows
  Waiting-next row [] t e h = tt
  Waiting-next row (next ∷ rows) t e ((at, ready), h) =
      ((at, row-Ready c row next (ground arith) t ready), Waiting-next row rows t (ground arith) h)

  rows-has :
      (rows t : List Owned) (o : ℕ)
      → DistinctIds rows
      → All (Waiting d t) rows
      → has o c (adopt_rows c rows t) ≡ (has o c t || any (λ r. o == r.owner) rows)
  unfolding adopt_rows
  rows-has [] t o u h = ground arith
  rows-has (row ∷ rows) t o (e, u) ((at, ready), h) = ground (
    arith,
    rows-has rows (adopt_row c row t) o u (Waiting-next row rows t e h),
    row-has c d row t apart at ready o,
  )

  rows-has_other :
      (rows t : List Owned) (o m : ℕ)
      → DistinctIds rows
      → All (Waiting d t) rows
      → (m == c) ≡ false
      → (m == d) ≡ false
      → has o m (adopt_rows c rows t) ≡ has o m t
  unfolding adopt_rows
  rows-has_other [] t o m u h f g = refl
  rows-has_other (row ∷ rows) t o m (e, u) ((at, ready), h) f g =
      rows-has_other rows (adopt_row c row t) o m u (Waiting-next row rows t e h) f g
      ∙ row-has_other c d row t apart at ready o m f g

  rows-count :
      (rows t : List Owned) (o m : ℕ)
      → DistinctIds rows
      → All (Waiting d t) rows
      → count o m t ≤ 1
      → ((o' m' : ℕ) → count o' m' t ≤ 1)
      → count o m (adopt_rows c rows t) ≤ 1
  unfolding adopt_rows
  rows-count [] t o m u h k all = k
  rows-count (row ∷ rows) t o m (e, u) ((at, ready), h) k all =
      rows-count rows (adopt_row c row t) o m u (Waiting-next row rows t e h)
        (row-count c d row t apart at ready o m k)
        (λ o' m'. row-count c d row t apart at ready o' m' (all o' m'))

  rows-pending :
      (rows t : List Owned)
      → All (λ r. is_pending d rows r ≡ true) t
      → All (λ r. is_pending d [] r ≡ true) (adopt_rows c rows t)
  unfolding adopt_rows
  rows-pending [] t h = h
  rows-pending (row ∷ rows) t h =
      rows-pending rows (adopt_row c row t) (row-pending c d row apart rows t h)

has-none : (o d : ℕ) (t : List Owned) → All (λ r. is_pending d [] r ≡ true) t → has o d t ≡ false
has-none o d [] h = refl
has-none o d (r ∷ t) (h, hs) = ground (arith, has-none o d t hs)

only_absent :
    (r : Owned) (t : List Owned)
    → has_id r.id t ≡ false
    → All (λ x. is_only r x ≡ true) t × (length (filter (λ x. x.id == r.id) t) ≡ 0)
only_absent r [] h = (tt, refl)
only_absent r (x ∷ t) h =
    let (rest, none_left) = only_absent r t (ground arith) in
    ((ground arith, rest), ground (arith, none_left))

Ready-later :
    (r : Owned) (t rows : List Owned)
    → has_id r.id rows ≡ false
    → All (λ row. Ready row t) rows
    → All (λ row. Ready row (r ∷ t)) rows
Ready-later r t [] e h = tt
Ready-later r t (row ∷ rows) e ((only, one), h) =
    (((ground arith, only), ground (arith, one)), Ready-later r t rows (ground arith) h)

all_Ready : (t : List Owned) → DistinctIds t → All (λ row. Ready row t) t
all_Ready [] u = tt
all_Ready (r ∷ t) (e, u) =
    let (only, none_left) = only_absent r t e in
    (((ground arith, only), ground (arith, none_left)), Ready-later r t t e (all_Ready t u))

zip_All :
    (d : ℕ) (t rows : List Owned)
    → All (λ row. (row.media_id == d) ≡ true) rows
    → All (λ row. Ready row t) rows
    → All (Waiting d t) rows
zip_All d t [] a b = tt
zip_All d t (row ∷ rows) (a, more) (b, rest) = ((a, b), zip_All d t rows more rest)

at_media-Waiting : (d : ℕ) (t : List Owned) → DistinctIds t → All (Waiting d t) (at_media d t)
at_media-Waiting d t u =
    zip_All d t (at_media d t) (filter-All (λ r. r.media_id == d) t)
      (All-filter (λ row. Ready row t) (λ r. r.media_id == d) t (all_Ready t u))

pub filter-absent :
    (p : Owned → Bool) (id : ℕ) (t : List Owned)
    → has_id id t ≡ false
    → has_id id (filter p t) ≡ false
filter-absent p id [] h = refl
filter-absent p id (r ∷ t) h = ground (arith, filter-absent p id t)

pub filter-DistinctIds :
    (p : Owned → Bool) (t : List Owned) → DistinctIds t → DistinctIds (filter p t)
filter-DistinctIds p [] u = tt
filter-DistinctIds p (r ∷ t) (e, u) = elim (Bool-cases (p r)) [
  | inl yes_p ↦ rw yes_p (filter-absent p r.id t e, filter-DistinctIds p t u)
  | inr no_p ↦ rw no_p (filter-DistinctIds p t u)
]

at_media-owner :
    (d : ℕ) (t : List Owned) (o : ℕ) → any (λ r. o == r.owner) (at_media d t) ≡ has o d t
at_media-owner d [] o = refl
at_media-owner d (r ∷ t) o = ground (arith, at_media-owner d t o)

grow_pending :
    (d : ℕ) (x : Owned) (rows t : List Owned)
    → All (λ r. is_pending d rows r ≡ true) t
    → All (λ r. is_pending d (x ∷ rows) r ≡ true) t
grow_pending d x rows [] h = tt
grow_pending d x rows (r ∷ t) (h, hs) = (ground arith, grow_pending d x rows t hs)

at_media-pending : (d : ℕ) (t : List Owned) → All (λ r. is_pending d (at_media d t) r ≡ true) t
at_media-pending d [] = tt
at_media-pending d (r ∷ t) = elim (Bool-cases (r.media_id == d)) [
  | inl e ↦
      let kept : at_media d (r ∷ t) ≡ r ∷ at_media d t = rw e refl in
      (
        ground arith,
        subst (λ rows. All (λ x. is_pending d rows x ≡ true) t) (sym kept)
            (grow_pending d r (at_media d t) t (at_media-pending d t)),
      )
  | inr e ↦
      let left : at_media d (r ∷ t) ≡ at_media d t = rw e refl in
      (
        ground arith,
        subst (λ rows. All (λ x. is_pending d rows x ≡ true) t) (sym left) (at_media-pending d t),
      )
]

-- Afterwards an owner has a row at `c` if it had one at `c` or at `d`, none at `d`, and elsewhere
-- what it had.
pub adopt-has :
    (c d : ℕ) (t : List Owned) (o m : ℕ)
    → (c == d) ≡ false
    → DistinctIds t
    → has o m (adopt c d t)
      ≡ (if m == c then has o c t || has o d t else if m == d then false else has o m t)
unfolding adopt
adopt-has c d t o m apart u =
    let rows = at_media d t in
    let v = filter-DistinctIds (λ r. r.media_id == d) t u in
    let w = at_media-Waiting d t u in
    elim (Bool-cases (m == c)) [
      | inl e ↦ ground (arith, rows-has c d apart rows t o v w, at_media-owner d t o)
      | inr e ↦ elim (Bool-cases (m == d)) [
        | inl f ↦ ground (
          arith,
          has-none o d (adopt_rows c rows t) (rows-pending c d apart rows t (at_media-pending d t)),
        )
        | inr f ↦ ground (arith, rows-has_other c d apart rows t o m v w)
      ]
    ]

pub adopt-count :
    (c d : ℕ) (t : List Owned) (o m : ℕ)
    → (c == d) ≡ false
    → DistinctIds t
    → ((o' m' : ℕ) → count o' m' t ≤ 1)
    → count o m (adopt c d t) ≤ 1
unfolding adopt
adopt-count c d t o m apart u all =
    rows-count c d apart (at_media d t) t o m (filter-DistinctIds (λ r. r.media_id == d) t u)
      (at_media-Waiting d t u) (all o m) all
