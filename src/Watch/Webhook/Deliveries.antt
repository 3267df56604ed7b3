-- ===== src/Watch/Webhook/Deliveries.antt =====
-- Repeated webhook deliveries: the pruning of the table never changes an answer.
use scrob.Prelude.{◌+◌, String, ◌≡◌, not, some, arith, ltb, length, string_eq, Bool-cases, inl, inr}
use scrob.Prelude.Clock.{Time}
use scrob.Prelude.Dict.{
  get, DistinctKeys, get-put, get-filter, DistinctKeys-filter, DistinctKeys-put,
}
use scrob.Watch.Webhook.{
  Deliveries, webhook_dedup_window, is_recent, prune_deliveries, is_duplicate_webhook_delivery,
}

recent-prune :
    (now : Time) (d : Deliveries) (key : String)
    → DistinctKeys d
    → is_recent webhook_dedup_window now (get (prune_deliveries now d) key)
      ≡ is_recent webhook_dedup_window now (get d key)
unfolding prune_deliveries
recent-prune now d key h =
    ground (
      arith,
      get-filter (λ (e : String × Time). not (ltb (e.1 + webhook_dedup_window) now)) d key h,
    )

DistinctKeys-prune :
    (now : Time) (d : Deliveries) → DistinctKeys d → DistinctKeys (prune_deliveries now d)
unfolding prune_deliveries
DistinctKeys-prune now d h = elim (Bool-cases (ltb 2000 (length d))) [
  | inl t ↦ rw t (DistinctKeys-filter _ d h)
  | inr f ↦ rw f h
]

-- A delivery is a duplicate exactly if the same key was delivered less than 15 seconds before,
-- however many keys the table holds; the table stays one entry a key, with this delivery in it.
pub delivery_exact :
    (now : Time) (key : String) (d : Deliveries)
    → DistinctKeys d
    → ((is_duplicate_webhook_delivery now key d).1 ≡ is_recent webhook_dedup_window now (get d key))
      × (get (is_duplicate_webhook_delivery now key d).0 key ≡ some now)
      × DistinctKeys (is_duplicate_webhook_delivery now key d).0
unfolding is_duplicate_webhook_delivery
delivery_exact now key d h = (
  recent-prune now d key h,
  ground (arith, get-put key now (prune_deliveries now d) key, string_eq.same_iff key key),
  DistinctKeys-put key now _ (DistinctKeys-prune now d h),
)
