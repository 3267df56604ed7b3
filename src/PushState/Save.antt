-- ===== src/PushState/Save.antt =====
-- `PushState.pending` and `PushState.save`: the deletes and the upsert, statement by statement.
pub mod Chunks
pub mod Saved
use scrob.Prelude.{
  ℕ, zero, suc, Bool, true, false, not, ◌&&◌, ◌||◌, Option, none, some, List, [], ◌∷◌, ◌++◌, ltb,
  filter, length, if◌then◌else◌, ◌==◌, nat_eq, pair_eq, contains,
}
use scrob.Prelude.Clock.{Time}
use scrob.Prelude.Dict.{Dict, get, put, has_key}
use scrob.Prelude.Text.{Text, text_eq}
use scrob.PushState.{miss, upsert_chunk, delete_chunk, Item, Row, Table, PushState}

unfoldable pub startswith : Text → Text → Bool
startswith [] s = true
startswith (c ∷ p) [] = false
startswith (c ∷ p) (d ∷ s) = c == d && startswith p s

abbrev pub is_pending : PushState → Item × Option ℕ → Bool
is_pending s e = not (contains s.failed e.0) || startswith miss e.0.1

unfoldable pub pending : PushState → Dict Item (Option ℕ)
pending s = filter (is_pending s) s.updates

abbrev pub or_nil : Option (List ℕ) → List ℕ
or_nil none = []
or_nil (some ids) = ids

-- `by_key.setdefault(key, []).append(media_id)` for each item.
unfoldable pub group : List Item → Dict Text (List ℕ) → Dict Text (List ℕ)
group [] d = d
group ((media_id, key) ∷ items) d = group items (put key (or_nil (get d key) ++ media_id ∷ []) d)

unfoldable pub take {ℓ} : {A : Type ℓ} → ℕ → List A → List A
take zero xs = []
take (suc n) [] = []
take (suc n) (x ∷ xs) = x ∷ take n xs

unfoldable pub drop {ℓ} : {A : Type ℓ} → ℕ → List A → List A
drop zero xs = xs
drop (suc n) [] = []
drop (suc n) (x ∷ xs) = drop n xs

-- `xs[i : i + n] for i in range(0, len(xs), n)`; the first number is fuel, which `len(xs)` is
-- enough of.
unfoldable pub slices {ℓ} : {A : Type ℓ} → ℕ → ℕ → List A → List (List A)
slices zero n xs = []
slices (suc fuel) n [] = []
slices (suc fuel) n (x ∷ xs) = take n (x ∷ xs) ∷ slices fuel n (drop n (x ∷ xs))

abbrev pub is_row_of : ℕ → Text → List ℕ → (ℕ × Item) × Row → Bool
is_row_of connection_id key ids e = e.0.0 == connection_id && e.0.1.1 == key && contains ids e.0.1.0

-- One `delete` for each slice.
unfoldable pub delete_slices : ℕ → Text → List (List ℕ) → Table → Table
delete_slices c key [] t = t
delete_slices c key (ids ∷ rest) t =
    delete_slices c key rest (filter (λ e. not (is_row_of c key ids e)) t)

unfoldable pub delete_groups : ℕ → Dict Text (List ℕ) → Table → Table
delete_groups c [] t = t
delete_groups c ((key, ids) ∷ groups) t =
    delete_groups c groups (delete_slices c key (slices (length ids) delete_chunk ids) t)

-- `insert(...).values(rows).on_conflict_do_update(...)`
unfoldable pub upsert : ℕ → Time → Dict Item (Option ℕ) → Table → Table
upsert c now [] t = t
upsert c now ((item, value) ∷ rows) t = upsert c now rows (put (c, item) (value, now) t)

unfoldable pub upsert_slices : ℕ → Time → List (Dict Item (Option ℕ)) → Table → Table
upsert_slices c now [] t = t
upsert_slices c now (rows ∷ rest) t = upsert_slices c now rest (upsert c now rows t)

-- The state is cleared, but for the failures.
unfoldable pub save : ℕ → PushState → Table → PushState × Table
save c s t =
    let rows = pending s in
    let forgotten = filter (λ item. not (has_key rows item)) s.forgotten in
    (
      record s { updates = []; forgotten = [] },
      upsert_slices c s.now (slices (length rows) upsert_chunk rows)
          (delete_groups c (group forgotten []) t),
    )
