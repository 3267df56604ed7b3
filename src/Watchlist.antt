-- ===== src/Watchlist.antt =====
-- The three-way reconciliation of the Plex watchlist with the managed Scrob list:
-- backend/core/watchlist_reconcile.py and `_reconcile_plex_watchlist` with its two appliers in
-- backend/routers/sync.py. A key is the text "movie:603"; a set is a list read by `contains`.
-- TMDB and Plex are oracles: they say which imports and which remote calls succeed.

pub mod Classify
pub mod Table
pub mod Breaker
pub mod Apply
pub mod TwoWay
pub mod Retry
mod Tests
use Prim.Native.Nat.{Ordering}
use Prim.Native.String.{compare}
use scrob.Prelude.{
  ℕ, ◌*◌, String, Bool, true, false, not, ◌&&◌, ◌||◌, Option, none, some, List, [], ◌∷◌, length,
  ltb, leb, if◌then◌else◌, string_eq, contains, add, set_of, difference, intersection, union,
}

abbrev pub suppress_min_baseline : ℕ
suppress_min_baseline = 10

-- `suppressed_reason`: the counts that the message shows.
pub data Reason : Type 0 where
  remote_empty : ℕ → Reason
  would_remove : ℕ → ℕ → Reason

pub record ReconcilePlan : Type 0 where
  pub add_local : List String
  pub remove_local : List String
  pub push_add : List String
  pub push_remove : List String
  pub suppressed : Bool
  pub suppressed_reason : Option Reason

abbrev pub no_plan : ReconcilePlan
no_plan = record {
  add_local = [];
  remove_local = [];
  push_add = [];
  push_remove = [];
  suppressed = false;
  suppressed_reason = none;
}

-- `bool(xs)` of a set.
abbrev pub truthy : List String → Bool
truthy [] = false
truthy (x ∷ xs) = true

unfoldable pub has_changes : ReconcilePlan → Bool
has_changes p =
    truthy p.add_local || truthy p.remove_local || truthy p.push_add || truthy p.push_remove

-- The four sets that the loops fill.
pub record Actions : Type 0 where
  pub add_local : List String
  pub remove_local : List String
  pub push_add : List String
  pub push_remove : List String

abbrev pub no_actions : Actions
no_actions = record { add_local = []; remove_local = []; push_add = []; push_remove = [] }

module _ (pull push : Bool) (b : List String) where
  -- One round of `for key in l - r`.
  unfoldable pub local_only : Actions → String → Actions
  local_only s key =
      if contains b key
      then (if pull
          then record s { remove_local = add key s.remove_local }
          else if push
          then record s { push_add = add key s.push_add }
          else s)
      else if push
      then record s { push_add = add key s.push_add }
      else if pull
      then record s { remove_local = add key s.remove_local }
      else s

  -- One round of `for key in r - l`.
  unfoldable pub remote_only : Actions → String → Actions
  remote_only s key =
      if contains b key
      then (if push
          then record s { push_remove = add key s.push_remove }
          else if pull
          then record s { add_local = add key s.add_local }
          else s)
      else if pull
      then record s { add_local = add key s.add_local }
      else s

  unfoldable pub local_loop : Actions → List String → Actions
  local_loop s [] = s
  local_loop s (key ∷ keys) = local_loop (local_only s key) keys

  unfoldable pub remote_loop : Actions → List String → Actions
  remote_loop s [] = s
  remote_loop s (key ∷ keys) = remote_loop (remote_only s key) keys

-- The circuit breaker's `reason`; `0.5 * len(b)` is compared exactly, as a fraction.
unfoldable pub suppress_reason : List String → List String → List String → Option Reason
suppress_reason r b removed =
    if not (truthy r)
    then some (remote_empty (length b))
    else if ltb (length b) (2 * length (intersection removed b))
    then some (would_remove (length (intersection removed b)) (length b))
    else none

abbrev pub planned : Actions → ReconcilePlan
planned s = record {
  add_local = s.add_local;
  remove_local = s.remove_local;
  push_add = s.push_add;
  push_remove = s.push_remove;
  suppressed = false;
  suppressed_reason = none;
}

unfoldable pub guarded : List String → List String → Actions → ReconcilePlan
unfolding suppress_reason
guarded r b s =
    if truthy s.remove_local && leb suppress_min_baseline (length b)
    then elim (suppress_reason r b s.remove_local) [
      | some reason ↦ record no_plan { suppressed = true; suppressed_reason = some reason }
      | none ↦ planned s
    ]
    else planned s

abbrev pub classified : List String → List String → List String → Bool → Bool → Actions
classified l r b pull push =
    remote_loop pull push b (local_loop pull push b no_actions (difference l r)) (difference r l)

unfoldable pub plan_watchlist_reconcile :
    List String → List String → Option (List String) → Bool → Bool → ReconcilePlan
plan_watchlist_reconcile local remote none pull push =
    let l = set_of local in
    let r = set_of remote in
    record no_plan {
      add_local = if pull then difference r l else [];
      push_add = if push then difference l r else [];
    }
plan_watchlist_reconcile local remote (some baseline) pull push =
    let l = set_of local in
    let r = set_of remote in let b = set_of baseline in guarded r b (classified l r b pull push)

-- `sorted` of a list of texts, by code points.
unfoldable pub insert_sorted : String → List String → List String
insert_sorted k [] = k ∷ []
insert_sorted k (j ∷ ks) = elim (compare k j) [
  | Ordering.gt ↦ j ∷ insert_sorted k ks
  | _ ↦ k ∷ j ∷ ks
]

unfoldable pub sorted : List String → List String
unfolding insert_sorted
sorted [] = []
sorted (k ∷ ks) = insert_sorted k (sorted ks)

unfoldable pub compute_new_baseline : List String → List String → List String → List String
unfolding sorted
compute_new_baseline final_local failed_push_add failed_push_remove =
    sorted
      (difference (union (set_of final_local) (set_of failed_push_remove)) (set_of failed_push_add))
