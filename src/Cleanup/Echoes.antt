-- ===== src/Cleanup/Echoes.antt =====
-- What `find_duplicate_watch_event_ids` names for deletion.
use mathlib.Core.Path.{subst}
use scrob.Prelude.{
  ℕ, ◌≡◌, ◌⊎◌, refl, true, List, [], ◌∷◌, ◌++◌, arith, ◌==◌, nat_eq, pair_eq, All, All-append,
  All-map, Bool-cases, inl, inr, sym, ◌+◌, ◌≤◌,
}
use scrob.Prelude.Dict.{Dict, get, put}
use scrob.Cleanup.{
  resolve_cluster, insert_row, is_webhook_signature, is_backfill_signature, reconcile_window,
  WatchEventRow, key_of, or_nil, by_group, sort_rows, resolve_group, resolve_groups,
  find_duplicate_watch_event_ids,
}
use scrob.Cleanup.Clusters.{Echo, NotAfter, All-sort, sort-IsSorted, group-Echo}

abbrev pub Occurs : WatchEventRow → List WatchEventRow → Type 0
Occurs r [] = ⊥
Occurs r (x ∷ rows) = (x ≡ r) ⊎ Occurs r rows

All-Occurs : (rows : List WatchEventRow) → All (λ r. Occurs r rows) rows
All-Occurs [] = tt
All-Occurs (r ∷ rows) = (inl refl, All-map rows (λ s k. inr k) (All-Occurs rows))

abbrev pub InGroup : (WatchEventRow → Type 0) → ℕ × ℕ → WatchEventRow → Type 0
InGroup P key r = P r × (key_of r ≡ key)

abbrev pub Groups : (WatchEventRow → Type 0) → Dict (ℕ × ℕ) (List WatchEventRow) → Type 0
Groups P d = All (λ g. All (InGroup P g.0) g.1) d

key_eq : (j k : ℕ × ℕ) → (j == k) ≡ true → j ≡ k
key_eq j k h = ground arith

module _ (P : WatchEventRow → Type 0) where
  Groups-put :
      (k : ℕ × ℕ) (rows : List WatchEventRow) (d : Dict (ℕ × ℕ) (List WatchEventRow))
      → All (InGroup P k) rows
      → Groups P d
      → Groups P (put k rows d)
  unfolding put
  Groups-put k rows [] h g = (h, tt)
  Groups-put k rows ((j, old) ∷ d) h (g, gs) = elim (Bool-cases (j == k)) [
    | inl same ↦ rw same (subst (λ x. All (InGroup P x) rows) (sym (key_eq j k same)) h, gs)
    | inr apart ↦ rw apart (g, Groups-put k rows d h gs)
  ]

  Groups-get :
      (k : ℕ × ℕ) (d : Dict (ℕ × ℕ) (List WatchEventRow))
      → Groups P d
      → All (InGroup P k) (or_nil (get d k))
  unfolding get
  Groups-get k [] g = tt
  Groups-get k ((j, rows) ∷ d) (g, gs) = elim (Bool-cases (j == k)) [
    | inl same ↦ rw same (subst (λ x. All (InGroup P x) rows) (key_eq j k same) g)
    | inr apart ↦ rw apart (Groups-get k d gs)
  ]

  by_group-Groups :
      (rows : List WatchEventRow) (d : Dict (ℕ × ℕ) (List WatchEventRow))
      → All P rows
      → Groups P d
      → Groups P (by_group rows d)
  unfolding by_group
  by_group-Groups [] d h g = g
  by_group-Groups (r ∷ rows) d (p, ps) g =
      by_group-Groups rows (put (key_of r) (or_nil (get d (key_of r)) ++ r ∷ []) d) ps (
        Groups-put (key_of r) _ d
          (All-append (InGroup P (key_of r)) (or_nil (get d (key_of r))) (r ∷ [])
            (Groups-get (key_of r) d g) ((p, refl), tt))
          g)

  nothing-before : (rows : List WatchEventRow) → All (λ r. All (NotAfter r) []) rows
  nothing-before [] = tt
  nothing-before (r ∷ rows) = (tt, nothing-before rows)

  resolve_groups-Echo :
      (d : Dict (ℕ × ℕ) (List WatchEventRow))
      → Groups P d
      → All (λ id. (key : ℕ × ℕ) × Echo (InGroup P key) id) (resolve_groups d)
  unfolding resolve_groups
  resolve_groups-Echo [] g = tt
  resolve_groups-Echo ((key, rows) ∷ d) (g, gs) =
      All-append (λ id. (key : ℕ × ℕ) × Echo (InGroup P key) id) (resolve_group [] (sort_rows rows))
        _
        (All-map (resolve_group [] (sort_rows rows)) (λ id e. (key, e))
          (group-Echo (InGroup P key) [] (sort_rows rows) tt tt (nothing-before (sort_rows rows))
            (sort-IsSorted rows) (All-sort (InGroup P key) rows g)))
        (resolve_groups-Echo d gs)

-- Every id named for deletion is that of a row of the list without progress data, and the list
-- has a row of the same user and media, with the webhook's signature, at most ten minutes away.
pub find_duplicates-Echo :
    (rows : List WatchEventRow)
    → All
        (λ id. (key : ℕ × ℕ) × Echo (InGroup (λ r. Occurs r rows) key) id)
        (find_duplicate_watch_event_ids rows)
unfolding find_duplicate_watch_event_ids
find_duplicates-Echo rows =
    resolve_groups-Echo (λ r. Occurs r rows) (by_group rows [])
      (by_group-Groups (λ r. Occurs r rows) rows [] (All-Occurs rows) tt)

-- The row of a pair is named: of two plays of one item, one by webhook and one by backfill and
-- at most ten minutes apart, the backfill's, in whichever order the rows come.
pub pair-merged :
    (a b : WatchEventRow)
    → key_of a ≡ key_of b
    → is_webhook_signature a ≡ true
    → is_backfill_signature b ≡ true
    → a.watched_at ≤ b.watched_at + reconcile_window
    → b.watched_at ≤ a.watched_at + reconcile_window
    → (find_duplicate_watch_event_ids (a ∷ b ∷ []) ≡ b.id ∷ [])
      × (find_duplicate_watch_event_ids (b ∷ a ∷ []) ≡ b.id ∷ [])
unfolding find_duplicate_watch_event_ids by_group put get resolve_groups sort_rows insert_row
    resolve_group resolve_cluster is_webhook_signature is_backfill_signature
pair-merged a b k w f h h' = (ground arith, ground arith)
