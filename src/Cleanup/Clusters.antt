-- ===== src/Cleanup/Clusters.antt =====
-- The order of a group's rows, and the gaps inside a cluster.
use scrob.Prelude.{
  ℕ, ◌+◌, ◌≤◌, ◌≡◌, refl, true, false, ◌&&◌, List, [], ◌∷◌, ◌++◌, arith, leb, leb→le, nat_eq, All,
  All-append, All-map, Bool-cases, inl, inr,
}
use scrob.Cleanup.{
  reconcile_window, WatchEventRow, is_webhook_signature, is_backfill_signature, resolve_cluster,
  insert_row, sort_rows, is_apart, resolve_group,
}

abbrev pub IsSorted : List WatchEventRow → Type 0
IsSorted [] = Unit
IsSorted (r ∷ rows) = All (λ s. r.watched_at ≤ s.watched_at) rows × IsSorted rows

module _ (P : WatchEventRow → Type 0) where
  All-insert :
      (row : WatchEventRow) (rows : List WatchEventRow)
      → P row
      → All P rows
      → All P (insert_row row rows)
  unfolding insert_row
  All-insert row [] p ps = (p, tt)
  All-insert row (r ∷ rows) p (q, qs) = elim (Bool-cases (leb row.watched_at r.watched_at)) [
    | inl t ↦ rw t (p, (q, qs))
    | inr f ↦ rw f (q, All-insert row rows p qs)
  ]

  pub All-sort : (rows : List WatchEventRow) → All P rows → All P (sort_rows rows)
  unfolding sort_rows
  All-sort [] h = tt
  All-sort (r ∷ rows) (p, ps) = All-insert r (sort_rows rows) p (All-sort rows ps)

insert-IsSorted :
    (row : WatchEventRow) (rows : List WatchEventRow)
    → IsSorted rows
    → IsSorted (insert_row row rows)
unfolding insert_row
insert-IsSorted row [] h = (tt, tt)
insert-IsSorted row (r ∷ rows) (least, h) = elim (Bool-cases (leb row.watched_at r.watched_at)) [
  | inl t ↦
      rw t ((leb→le _ _ t, All-map rows (λ s k. omega (arith, k, leb→le _ _ t)) least), (least, h))
  | inr f ↦ rw f (
    All-insert (λ s. r.watched_at ≤ s.watched_at) row rows (ground arith) least,
    insert-IsSorted row rows h,
  )
]

pub sort-IsSorted : (rows : List WatchEventRow) → IsSorted (sort_rows rows)
unfolding sort_rows
sort-IsSorted [] = tt
sort-IsSorted (r ∷ rows) = insert-IsSorted r (sort_rows rows) (sort-IsSorted rows)

-- Each row of a cluster follows the one before within the window.
abbrev pub Chain : List WatchEventRow → Type 0
Chain [] = Unit
Chain (a ∷ []) = Unit
Chain (a ∷ b ∷ rest) =
    (a.watched_at ≤ b.watched_at)
    × (b.watched_at ≤ a.watched_at + reconcile_window)
    × Chain (b ∷ rest)

abbrev pub NotAfter : WatchEventRow → WatchEventRow → Type 0
NotAfter row a = a.watched_at ≤ row.watched_at

Chain-append :
    (cluster : List WatchEventRow) (row : WatchEventRow)
    → Chain cluster
    → All (NotAfter row) cluster
    → is_apart cluster row ≡ false
    → Chain (cluster ++ row ∷ [])
Chain-append [] row h k e = tt
Chain-append (a ∷ []) row h (k, _) e = (k, ground arith, tt)
Chain-append (a ∷ b ∷ rest) row (h, h', hs) (k, ks) e = (h, h', Chain-append (b ∷ rest) row hs ks e)

-- The row that is deleted as the echo of another.
pub record Echo (P : WatchEventRow → Type 0) (id : ℕ) : Type 0 where
  pub kept : WatchEventRow
  pub gone : WatchEventRow
  pub gone_id : gone.id ≡ id
  pub kept_from : P kept
  pub gone_from : P gone
  pub kept_webhook : is_webhook_signature kept ≡ true
  pub gone_backfill : is_backfill_signature gone ≡ true
  pub near :
      (kept.watched_at ≤ gone.watched_at + reconcile_window)
      × (gone.watched_at ≤ kept.watched_at + reconcile_window)

module _ (P : WatchEventRow → Type 0) where
  cluster-Echo :
      (cluster : List WatchEventRow)
      → Chain cluster
      → All P cluster
      → All (Echo P) (resolve_cluster cluster)
  unfolding resolve_cluster
  cluster-Echo [] h p = tt
  cluster-Echo (a ∷ []) h p = tt
  cluster-Echo (a ∷ b ∷ c ∷ rest) h p = tt
  cluster-Echo (a ∷ b ∷ []) (le, near, _) (p, (q, _)) =
      elim (Bool-cases (is_webhook_signature a && is_backfill_signature b)) [
        | inl t ↦ rw t (
          record {
            kept = a;
            gone = b;
            gone_id = refl;
            kept_from = p;
            gone_from = q;
            kept_webhook = ground arith;
            gone_backfill = ground arith;
            near = (omega (arith, le), near);
          },
          tt,
        )
        | inr f ↦ rw f (elim (Bool-cases (is_webhook_signature b && is_backfill_signature a)) [
          | inl t ↦ rw t (
            record {
              kept = b;
              gone = a;
              gone_id = refl;
              kept_from = q;
              gone_from = p;
              kept_webhook = ground arith;
              gone_backfill = ground arith;
              near = (near, omega (arith, le));
            },
            tt,
          )
          | inr g ↦ rw g tt
        ])
      ]

  pub group-Echo :
      (cluster rows : List WatchEventRow)
      → Chain cluster
      → All P cluster
      → All (λ row. All (NotAfter row) cluster) rows
      → IsSorted rows
      → All P rows
      → All (Echo P) (resolve_group cluster rows)
  unfolding resolve_group
  group-Echo cluster [] h p before s q = cluster-Echo cluster h p
  group-Echo cluster (row ∷ rows) h p (before, befores) (least, s) (q, qs) =
      elim (Bool-cases (is_apart cluster row)) [
        | inl apart ↦ rw apart (
            All-append (Echo P) (resolve_cluster cluster) _ (cluster-Echo cluster h p)
              (group-Echo (row ∷ []) rows tt (q, tt) (All-map rows (λ r k. (k, tt)) least) s qs))
        | inr near ↦ rw near (
            group-Echo (cluster ++ row ∷ []) rows (Chain-append cluster row h before near)
              (All-append P cluster (row ∷ []) p (q, tt)) (extend rows befores least) s qs)
      ]
    where
      extend :
          (rest : List WatchEventRow)
          → All (λ r. All (NotAfter r) cluster) rest
          → All (λ r. row.watched_at ≤ r.watched_at) rest
          → All (λ r. All (NotAfter r) (cluster ++ row ∷ [])) rest
      extend [] a b = tt
      extend (r ∷ rest) (a, more) (b, bs) =
          (All-append (NotAfter r) cluster (row ∷ []) a (b, tt), extend rest more bs)
