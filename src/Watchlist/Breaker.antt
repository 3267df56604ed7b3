-- ===== src/Watchlist/Breaker.antt =====
-- When a plan of backend/core/watchlist_reconcile.py may remove, and how much.
use scrob.Prelude.{
  ◌*◌, ◌≤◌, String, ◌≡◌, Bool, true, false, not, ◌&&◌, none, some, List, [], arith, length,
  string_eq, contains, contains-filter, contains-set_of, set_of, intersection,
}
use scrob.Watchlist.{
  ReconcilePlan, Actions, truthy, has_changes, guarded, plan_watchlist_reconcile,
  suppress_min_baseline, classified,
}

abbrev pub Safe : List String → List String → ReconcilePlan → Type 0
Safe r b p =
    (p.suppressed ≡ true → (has_changes p ≡ false) × (suppress_min_baseline ≤ length b))
    × (p.suppressed ≡ false
        → suppress_min_baseline ≤ length b
        → (2 * length (intersection p.remove_local b) ≤ length b)
          × (truthy r ≡ false → p.remove_local ≡ []))

guarded-Safe : (r b : List String) (s : Actions) → Safe r b (guarded r b s)
unfolding guarded has_changes
guarded-Safe r b s = ground arith

-- A suppressed plan does nothing at all, and needs a baseline of at least ten keys. Against such a
-- baseline a plan that is not suppressed removes locally at most half of the baseline's keys, and
-- none if the remote watchlist came back empty.
pub plan-Safe :
    (local remote baseline : List String) (pull push : Bool)
    → Safe
        (set_of remote)
        (set_of baseline)
        (plan_watchlist_reconcile local remote (some baseline) pull push)
unfolding plan_watchlist_reconcile
plan-Safe local remote baseline pull push =
    guarded-Safe (set_of remote) (set_of baseline)
      (classified (set_of local) (set_of remote) (set_of baseline) pull push)

-- With no baseline nothing is ever removed on either side and the plan is not suppressed; each
-- enabled direction adds exactly the keys that its side lacks.
pub plan_first-adds :
    (local remote : List String) (pull push : Bool) (key : String)
    → ((plan_watchlist_reconcile local remote none pull push).remove_local ≡ [])
      × ((plan_watchlist_reconcile local remote none pull push).push_remove ≡ [])
      × ((plan_watchlist_reconcile local remote none pull push).suppressed ≡ false)
      × (contains (plan_watchlist_reconcile local remote none pull push).add_local key
          ≡ (pull && (contains remote key && not (contains local key))))
      × (contains (plan_watchlist_reconcile local remote none pull push).push_add key
          ≡ (push && (contains local key && not (contains remote key))))
unfolding plan_watchlist_reconcile contains
plan_first-adds local remote pull push key = ground (
  arith,
  contains-filter (λ k. not (contains (set_of local) k)) (set_of remote) key,
  contains-filter (λ k. not (contains (set_of remote) k)) (set_of local) key,
  contains-set_of local key,
  contains-set_of remote key,
)
