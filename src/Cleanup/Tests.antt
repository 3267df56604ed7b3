-- ===== src/Cleanup/Tests.antt =====
-- A play recorded by webhook and backfill, four minutes apart.
use scrob.Prelude.{ℕ, ◌≡◌, refl, none, some, [], ◌∷◌, arith, All}
use scrob.Prelude.Clock.{minutes}
use scrob.Cleanup.{
  WatchEventRow, is_webhook_signature, is_backfill_signature, find_duplicate_watch_event_ids,
}
use scrob.Cleanup.Clusters.{Echo}
use scrob.Cleanup.Echoes.{Occurs, InGroup, find_duplicates-Echo, pair-merged}

abbrev by_webhook : WatchEventRow
by_webhook = record {
  id = 1;
  user_id = 2;
  media_id = 3;
  watched_at = minutes 54;
  progress_percent = some 1000000;
  progress_seconds = some 2400;
}

abbrev by_backfill : WatchEventRow
by_backfill = record {
  id = 9;
  user_id = 2;
  media_id = 3;
  watched_at = minutes 50;
  progress_percent = none;
  progress_seconds = none;
}

find_duplicates-Echo_example :
    All
      (λ id. (key : ℕ × ℕ) × Echo (InGroup (λ r. Occurs r (by_webhook ∷ by_backfill ∷ [])) key) id)
      (find_duplicate_watch_event_ids (by_webhook ∷ by_backfill ∷ []))
find_duplicates-Echo_example = find_duplicates-Echo (by_webhook ∷ by_backfill ∷ [])

pair-merged_example :
    (find_duplicate_watch_event_ids (by_webhook ∷ by_backfill ∷ []) ≡ 9 ∷ [])
    × (find_duplicate_watch_event_ids (by_backfill ∷ by_webhook ∷ []) ≡ 9 ∷ [])
unfolding is_webhook_signature is_backfill_signature
pair-merged_example = pair-merged by_webhook by_backfill refl refl refl (omega arith) (omega arith)
