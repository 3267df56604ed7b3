-- ===== src/Cleanup.antt =====
-- Plays recorded twice by webhook and backfill: backend/core/watch_event_cleanup.py. A progress
-- fraction is counted in millionths.
pub mod Clusters
pub mod Echoes
mod Tests
use scrob.Prelude.{
  ℕ, ◌+◌, Bool, true, false, not, ◌&&◌, ◌||◌, Option, none, some, List, [], ◌∷◌, ◌++◌, leb, ltb,
  if◌then◌else◌, ◌==◌, nat_eq, pair_eq,
}
use scrob.Prelude.Clock.{Time, minutes}
use scrob.Prelude.Dict.{Dict, get, put}

abbrev pub reconcile_window : ℕ
reconcile_window = minutes 10

pub record WatchEventRow : Type 0 where
  pub id : ℕ
  pub user_id : ℕ
  pub media_id : ℕ
  pub watched_at : Time
  pub progress_percent : Option ℕ
  pub progress_seconds : Option ℕ

abbrev pub is_given : Option ℕ → Bool
is_given none = false
is_given (some n) = true

unfoldable pub is_webhook_signature : WatchEventRow → Bool
is_webhook_signature row =
    elim row.progress_percent [ none ↦ false | some p ↦ p == 1000000 ]
    && is_given row.progress_seconds

unfoldable pub is_backfill_signature : WatchEventRow → Bool
is_backfill_signature row =
    not (is_given row.progress_percent) && not (is_given row.progress_seconds)

unfoldable pub resolve_cluster : List WatchEventRow → List ℕ
resolve_cluster (a ∷ b ∷ []) =
    if is_webhook_signature a && is_backfill_signature b
    then b.id ∷ []
    else if is_webhook_signature b && is_backfill_signature a
    then a.id ∷ []
    else []
resolve_cluster _ = []

abbrev pub key_of : WatchEventRow → ℕ × ℕ
key_of row = (row.user_id, row.media_id)

abbrev pub or_nil : Option (List WatchEventRow) → List WatchEventRow
or_nil none = []
or_nil (some rows) = rows

-- `by_group.setdefault(key, []).append(row)` for each row.
unfoldable pub by_group :
    List WatchEventRow → Dict (ℕ × ℕ) (List WatchEventRow) → Dict (ℕ × ℕ) (List WatchEventRow)
by_group [] d = d
by_group (row ∷ rows) d =
    by_group rows (put (key_of row) (or_nil (get d (key_of row)) ++ row ∷ []) d)

-- `sorted`, which keeps the order of rows of one time.
unfoldable pub insert_row : WatchEventRow → List WatchEventRow → List WatchEventRow
insert_row row [] = row ∷ []
insert_row row (r ∷ rows) =
    let rest = insert_row row rows in
    if leb row.watched_at r.watched_at then row ∷ r ∷ rows else r ∷ rest

unfoldable pub sort_rows : List WatchEventRow → List WatchEventRow
sort_rows [] = []
sort_rows (row ∷ rows) = insert_row row (sort_rows rows)

-- `cluster and row.watched_at - cluster[-1].watched_at > RECONCILE_WINDOW`
abbrev pub is_apart : List WatchEventRow → WatchEventRow → Bool
is_apart [] row = false
is_apart (a ∷ []) row = ltb (a.watched_at + reconcile_window) row.watched_at
is_apart (a ∷ b ∷ rest) row = is_apart (b ∷ rest) row

-- The loop over one group, with the cluster so far.
unfoldable pub resolve_group : List WatchEventRow → List WatchEventRow → List ℕ
resolve_group cluster [] = resolve_cluster cluster
resolve_group cluster (row ∷ rows) =
    if is_apart cluster row
    then resolve_cluster cluster ++ resolve_group (row ∷ []) rows
    else resolve_group (cluster ++ row ∷ []) rows

unfoldable pub resolve_groups : Dict (ℕ × ℕ) (List WatchEventRow) → List ℕ
resolve_groups [] = []
resolve_groups ((key, rows) ∷ groups) = resolve_group [] (sort_rows rows) ++ resolve_groups groups

unfoldable pub find_duplicate_watch_event_ids : List WatchEventRow → List ℕ
find_duplicate_watch_event_ids rows = resolve_groups (by_group rows [])
