-- ===== src/Merge/Adopt.antt =====
-- The loop that adopts the rows of one media for another.
use scrob.Prelude.{
  ℕ, ◌+◌, ◌≤◌, ◌≡◌, refl, Bool, true, false, not, ◌&&◌, ◌||◌, List, [], ◌∷◌, arith, filter, any,
  length, ◌==◌, nat_eq, All, Bool-cases, inl, inr, ◌∙◌,
}
use scrob.Merge.{Owned, is_at, delete_row, move_row, adopt_row}

abbrev pub has : ℕ → ℕ → List Owned → Bool
has o m t = any (is_at o m) t

abbrev pub count : ℕ → ℕ → List Owned → ℕ
count o m t = length (filter (is_at o m) t)

abbrev pub has_id : ℕ → List Owned → Bool
has_id id t = any (λ r. r.id == id) t

-- The primary key.
abbrev pub DistinctIds : List Owned → Type 0
DistinctIds [] = Unit
DistinctIds (r ∷ t) = (has_id r.id t ≡ false) × DistinctIds t

-- The one row of `t` with the id of `row` has its columns.
abbrev pub is_only : Owned → Owned → Bool
is_only row r = not (r.id == row.id) || (r.owner == row.owner && r.media_id == row.media_id)

abbrev pub Ready : Owned → List Owned → Type 0
Ready row t = All (λ r. is_only row r ≡ true) t × (length (filter (λ r. r.id == row.id) t) ≡ 1)

module _ (c : ℕ) (row : Owned) where
  has-delete :
      (t : List Owned) (o m : ℕ)
      → All (λ r. is_only row r ≡ true) t
      → (m == row.media_id) ≡ false
      → has o m (delete_row row.id t) ≡ has o m t
  has-delete [] o m h e = refl
  has-delete (r ∷ t) o m (h, hs) e = ground (arith, has-delete t o m hs e)

  has-move_other :
      (t : List Owned) (o m : ℕ)
      → All (λ r. is_only row r ≡ true) t
      → (m == row.media_id) ≡ false
      → (m == c) ≡ false
      → has o m (move_row row.id c t) ≡ has o m t
  has-move_other [] o m h e f = refl
  has-move_other (r ∷ t) o m (h, hs) e f = ground (arith, has-move_other t o m hs e f)

  has-move :
      (t : List Owned) (o : ℕ)
      → All (λ r. is_only row r ≡ true) t
      → (c == row.media_id) ≡ false
      → has o c (move_row row.id c t) ≡ (has o c t || (o == row.owner && has_id row.id t))
  has-move [] o h e = ground arith
  has-move (r ∷ t) o (h, hs) e = ground (arith, has-move t o hs e)

  count-delete : (t : List Owned) (o m : ℕ) → count o m (delete_row row.id t) ≤ count o m t
  count-delete [] o m = omega arith
  count-delete (r ∷ t) o m = ground (arith, count-delete t o m)

  count-move_other :
      (t : List Owned) (o m : ℕ)
      → All (λ r. is_only row r ≡ true) t
      → (m == c && o == row.owner) ≡ false
      → count o m (move_row row.id c t) ≤ count o m t
  count-move_other [] o m h e = omega arith
  count-move_other (r ∷ t) o m (h, hs) e = ground (arith, count-move_other t o m hs e)

  count-move :
      (t : List Owned) (o : ℕ)
      → count o c (move_row row.id c t) ≤ count o c t + length (filter (λ r. r.id == row.id) t)
  count-move [] o = omega arith
  count-move (r ∷ t) o = ground (arith, count-move t o)

count-zero : (o m : ℕ) (t : List Owned) → has o m t ≡ false → count o m t ≡ 0
count-zero o m [] h = refl
count-zero o m (r ∷ t) h = ground (arith, count-zero o m t)

has_id-one :
    (id : ℕ) (t : List Owned) → length (filter (λ r. r.id == id) t) ≡ 1 → has_id id t ≡ true
has_id-one id [] h = absurd (omega (arith, h))
has_id-one id (r ∷ t) h = ground (arith, has_id-one id t)

abbrev pub is_pending : ℕ → List Owned → Owned → Bool
is_pending d rows r = not (r.media_id == d) || has_id r.id rows

-- One round.
module _ (c d : ℕ) (row : Owned) (t : List Owned) (apart : (c == d) ≡ false)
    (at : (row.media_id == d) ≡ true) (ready : Ready row t) where
  pub row-has : (o : ℕ) → has o c (adopt_row c row t) ≡ (has o c t || o == row.owner)
  unfolding adopt_row
  row-has o = elim (Bool-cases (has row.owner c t)) [
    | inl clash ↦ rw clash (ground (arith, has-delete c row t o c ready.0))
    | inr free ↦ rw free (ground (arith, has-move c row t o ready.0, has_id-one row.id t ready.1))
  ]

  pub row-has_other :
      (o m : ℕ) → (m == c) ≡ false → (m == d) ≡ false → has o m (adopt_row c row t) ≡ has o m t
  unfolding adopt_row
  row-has_other o m e f = elim (Bool-cases (has row.owner c t)) [
    | inl clash ↦ rw clash (ground (arith, has-delete c row t o m ready.0))
    | inr free ↦ rw free (ground (arith, has-move_other c row t o m ready.0))
  ]

  pub row-count : (o m : ℕ) → count o m t ≤ 1 → count o m (adopt_row c row t) ≤ 1
  unfolding adopt_row
  row-count o m h = elim (Bool-cases (has row.owner c t)) [
    | inl clash ↦ rw clash (omega (arith, h, count-delete c row t o m))
    | inr free ↦ rw free (elim (Bool-cases (m == c && o == row.owner)) [
      | inl same ↦
          ground (arith, count-move c row t row.owner, count-zero row.owner c t free, ready.1)
      | inr other ↦ omega (arith, h, count-move_other c row t o m ready.0 other)
    ])
  ]

module _ (c d : ℕ) (row : Owned) (apart : (c == d) ≡ false) where
  delete-pending :
      (rows t : List Owned)
      → All (λ r. is_pending d (row ∷ rows) r ≡ true) t
      → All (λ r. is_pending d rows r ≡ true) (delete_row row.id t)
  delete-pending rows [] h = tt
  delete-pending rows (r ∷ t) (h, hs) = elim (Bool-cases (r.id == row.id)) [
    | inl same ↦ rw same (delete-pending rows t hs)
    | inr other ↦ rw other (ground arith, delete-pending rows t hs)
  ]

  move-pending :
      (rows t : List Owned)
      → All (λ r. is_pending d (row ∷ rows) r ≡ true) t
      → All (λ r. is_pending d rows r ≡ true) (move_row row.id c t)
  move-pending rows [] h = tt
  move-pending rows (r ∷ t) (h, hs) = (ground arith, move-pending rows t hs)

  pub row-pending :
      (rows t : List Owned)
      → All (λ r. is_pending d (row ∷ rows) r ≡ true) t
      → All (λ r. is_pending d rows r ≡ true) (adopt_row c row t)
  unfolding adopt_row
  row-pending rows t h = elim (Bool-cases (has row.owner c t)) [
    | inl clash ↦ rw clash (delete-pending rows t h)
    | inr free ↦ rw free (move-pending rows t h)
  ]

module _ (c : ℕ) (row next : Owned) (other : (row.id == next.id) ≡ false) where
  delete-Ready_only :
      (t : List Owned)
      → All (λ r. is_only next r ≡ true) t
      → All (λ r. is_only next r ≡ true) (delete_row row.id t)
  delete-Ready_only [] h = tt
  delete-Ready_only (r ∷ t) (h, hs) = elim (Bool-cases (r.id == row.id)) [
    | inl same ↦ rw same (delete-Ready_only t hs)
    | inr diff ↦ rw diff (h, delete-Ready_only t hs)
  ]

  move-Ready_only :
      (t : List Owned)
      → All (λ r. is_only next r ≡ true) t
      → All (λ r. is_only next r ≡ true) (move_row row.id c t)
  move-Ready_only [] h = tt
  move-Ready_only (r ∷ t) (h, hs) = (ground arith, move-Ready_only t hs)

  delete-ids :
      (t : List Owned)
      → length (filter (λ r. r.id == next.id) (delete_row row.id t))
        ≡ length (filter (λ r. r.id == next.id) t)
  delete-ids [] = refl
  delete-ids (r ∷ t) = ground (arith, delete-ids t)

  move-ids :
      (t : List Owned)
      → length (filter (λ r. r.id == next.id) (move_row row.id c t))
        ≡ length (filter (λ r. r.id == next.id) t)
  move-ids [] = refl
  move-ids (r ∷ t) = ground (arith, move-ids t)

  pub row-Ready : (t : List Owned) → Ready next t → Ready next (adopt_row c row t)
  unfolding adopt_row
  row-Ready t (only, one) = elim (Bool-cases (has row.owner c t)) [
    | inl clash ↦ rw clash (delete-Ready_only t only, delete-ids t ∙ one)
    | inr free ↦ rw free (move-Ready_only t only, move-ids t ∙ one)
  ]
