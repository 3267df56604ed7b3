-- ===== src/PushState/Save/Saved.antt =====
-- What `save` leaves in the table.
use scrob.Prelude.{
  ℕ, ◌≡◌, refl, Bool, true, false, not, ◌&&◌, ◌||◌, Option, none, some, List, [], ◌∷◌, ◌++◌, arith,
  filter, length, if◌then◌else◌, ◌==◌, nat_eq, pair_eq, contains, contains-append, contains-filter,
  ap, Option-cases, inl, inr,
}
use scrob.Prelude.Clock.{Time}
use scrob.Prelude.Dict.{
  Dict, get, put, DistinctKeys, get-filter, DistinctKeys-filter, has_key, get-put, get-eq-none,
  DistinctKeys-put,
}
use scrob.Prelude.Text.{Text, text_eq}
use scrob.PushState.{delete_chunk, upsert_chunk, Item, Row, Table, PushState}
use scrob.PushState.Save.{
  slices, is_row_of, delete_slices, delete_groups, upsert, upsert_slices, or_nil, group, is_pending,
  pending, save,
}
use scrob.PushState.Save.Chunks.{concat-slices, listed, listed-slices, upsert-concat, get-upsert}

get-filter-not :
    (p : (ℕ × Item) × Row → Bool) (t : Table) (k : ℕ × Item) (hit : Bool)
    → DistinctKeys t
    → ((row : Row) → p (k, row) ≡ hit)
    → get (filter (λ e. not (p e)) t) k ≡ (if hit then none else get t k)
get-filter-not p t k hit h same = elim (Option-cases (get t k)) [
  | inl e ↦ ground (arith, get-filter (λ e. not (p e)) t k h)
  | inr (row, e) ↦ ground (arith, get-filter (λ e. not (p e)) t k h, same row)
]

get-delete_slices :
    (c : ℕ) (key : Text) (xss : List (List ℕ)) (t : Table) (c' m : ℕ) (k : Text)
    → DistinctKeys t
    → (get (delete_slices c key xss t) (c', (m, k))
        ≡ (if c' == c && k == key && listed xss m then none else get t (c', (m, k))))
      × DistinctKeys (delete_slices c key xss t)
unfolding delete_slices listed
get-delete_slices c key [] t c' m k h = (ground arith, h)
get-delete_slices c key (ids ∷ rest) t c' m k h =
    let keep = DistinctKeys-filter (λ e. not (is_row_of c key ids e)) t h in
    let ih =
      get-delete_slices c key rest (filter (λ e. not (is_row_of c key ids e)) t) c' m k keep in
    (
      ground (
        arith,
        ih.0,
        get-filter-not (is_row_of c key ids) t (c', (m, k))
            (is_row_of c key ids ((c', (m, k)), (none, 0))) h (λ row. refl),
      ),
      ih.1,
    )

-- Whether the groups name the item.
grouped : Dict Text (List ℕ) → ℕ → Text → Bool
grouped d m k = contains (or_nil (get d k)) m

get-delete_groups :
    (c : ℕ) (groups : Dict Text (List ℕ)) (t : Table) (c' m : ℕ) (k : Text)
    → DistinctKeys groups
    → DistinctKeys t
    → get (delete_groups c groups t) (c', (m, k))
      ≡ (if c' == c && grouped groups m k then none else get t (c', (m, k)))
unfolding delete_groups grouped get contains
get-delete_groups c [] t c' m k h d = ground arith
get-delete_groups c ((key, ids) ∷ groups) t c' m k (h, hs) d =
    let one = get-delete_slices c key (slices (length ids) delete_chunk ids) t c' m k d in
    ground (
      arith,
      one.0,
      get-delete_groups c groups (delete_slices c key (slices (length ids) delete_chunk ids) t) c' m
          k hs one.1,
      listed-slices ids m,
      get-eq-none groups key h,
      text_eq.same_iff key k,
      text_eq.same_iff k key,
    )

group-grouped :
    (items : List Item) (d : Dict Text (List ℕ)) (m : ℕ) (k : Text)
    → grouped (group items d) m k ≡ (contains items (m, k) || grouped d m k)
unfolding group grouped contains
group-grouped [] d m k = refl
group-grouped ((i, key) ∷ items) d m k = ground (
  arith,
  group-grouped items (put key (or_nil (get d key) ++ i ∷ []) d) m k,
  get-put key (or_nil (get d key) ++ i ∷ []) d k,
  contains-append (or_nil (get d key)) (i ∷ []) m,
  text_eq.same_iff key k,
  text_eq.same_iff k key,
)

group-DistinctKeys :
    (items : List Item) (d : Dict Text (List ℕ)) → DistinctKeys d → DistinctKeys (group items d)
unfolding group
group-DistinctKeys [] d h = h
group-DistinctKeys ((i, key) ∷ items) d h =
    group-DistinctKeys items (put key (or_nil (get d key) ++ i ∷ []) d)
      (DistinctKeys-put key (or_nil (get d key) ++ i ∷ []) d h)

grouped-nil : (m : ℕ) (k : Text) → grouped [] m k ≡ false
unfolding grouped get contains
grouped-nil m k = refl

has_key-get :
    (rows : Dict Item (Option ℕ)) (item : Item)
    → has_key rows item ≡ elim (get rows item) [ none ↦ false | some v ↦ true ]
unfolding has_key get
has_key-get [] item = refl
has_key-get ((i, v) ∷ rows) item = ground (arith, has_key-get rows item)

-- After a save, a row of the connection is the pending value with the time of the run, where
-- there is one; else it is gone if it was forgotten, and else as before. The rows of the other
-- connections are untouched. (Updates and table have one entry a key.)
pub get-save :
    (c : ℕ) (s : PushState) (t : Table) (c' m : ℕ) (k : Text)
    → DistinctKeys s.updates
    → DistinctKeys t
    → get (save c s t).1 (c', (m, k)) ≡ (
        if c' == c
        then elim (get (pending s) (m, k)) [
          | some v ↦ some (v, s.now)
          | none ↦ if contains s.forgotten (m, k) then none else get t (c', (m, k))
        ]
        else get t (c', (m, k)))
unfolding save pending
get-save c s t c' m k h d =
    let rows = pending s in
    let dropped = filter (λ item. not (has_key rows item)) s.forgotten in
    let table = delete_groups c (group dropped []) t in
    ground (
      arith,
      upsert-concat c s.now (slices (length rows) upsert_chunk rows) table,
      ap (λ xs. upsert c s.now xs table) (concat-slices (length rows) 3999 rows (omega arith)),
      get-upsert c s.now rows table c' (m, k) (DistinctKeys-filter (is_pending s) s.updates h),
      get-delete_groups c (group dropped []) t c' m k (group-DistinctKeys dropped [] tt) d,
      group-grouped dropped [] m k,
      contains-filter (λ item. not (has_key rows item)) s.forgotten (m, k),
      grouped-nil m k,
      has_key-get rows (m, k),
    )

-- A save is done once: a second one, as of the error handler of a job, changes nothing.
pub save_twice :
    (c : ℕ) (s : PushState) (t : Table) → save c (save c s t).0 (save c s t).1 ≡ save c s t
unfolding save pending group delete_groups slices upsert_slices
save_twice c s t = refl

delete_groups-DistinctKeys :
    (c : ℕ) (groups : Dict Text (List ℕ)) (t : Table)
    → DistinctKeys t
    → DistinctKeys (delete_groups c groups t)
unfolding delete_groups
delete_groups-DistinctKeys c [] t h = h
delete_groups-DistinctKeys c ((key, ids) ∷ groups) t h =
    let slice = slices (length ids) delete_chunk ids in
    delete_groups-DistinctKeys c groups (delete_slices c key slice t)
      (get-delete_slices c key slice t 0 0 [] h).1

upsert-DistinctKeys :
    (c : ℕ) (now : Time) (rows : Dict Item (Option ℕ)) (t : Table)
    → DistinctKeys t
    → DistinctKeys (upsert c now rows t)
unfolding upsert
upsert-DistinctKeys c now [] t h = h
upsert-DistinctKeys c now ((item, v) ∷ rows) t h =
    upsert-DistinctKeys c now rows (put (c, item) (v, now) t)
      (DistinctKeys-put (c, item) (v, now) t h)

pub save-DistinctKeys :
    (c : ℕ) (s : PushState) (t : Table) → DistinctKeys t → DistinctKeys (save c s t).1
unfolding save
save-DistinctKeys c s t h =
    let rows = pending s in
    let dropped = filter (λ item. not (has_key rows item)) s.forgotten in
    rw
      (upsert-concat c s.now (slices (length rows) upsert_chunk rows)
        (delete_groups c (group dropped []) t))
      (upsert-DistinctKeys c s.now _ _ (delete_groups-DistinctKeys c (group dropped []) t h))
