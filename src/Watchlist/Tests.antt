-- ===== src/Watchlist/Tests.antt =====
-- Concrete reconciliations.
use text.Mathlib.TextEquality.{eq_iff}
use scrob.Prelude.{
  String, ◌≡◌, refl, true, false, some, List, [], ◌∷◌, arith, contains, set_of, union, string_eq,
}
use scrob.Watchlist.{
  plan_watchlist_reconcile, guarded, local_loop, remote_loop, local_only, remote_only,
  compute_new_baseline,
}
use scrob.Watchlist.Table.{Plans, table, plan-table}
use scrob.Watchlist.Breaker.{Safe, plan-Safe}
use scrob.Watchlist.Apply.{
  Managed, Run, done, declined, plan_of, reconcile_plex_watchlist, apply_plan,
  apply_local_watchlist_changes, apply_remote_watchlist_changes, import_loop, remove_rows, failures,
}
use scrob.Watchlist.Retry.{linked, RemoteFollows, Retries, reconcile-Retries}

program : Unit {0}
unfolding plan_watchlist_reconcile guarded local_loop remote_loop local_only remote_only set_of
    contains compute_new_baseline reconcile_plex_watchlist apply_plan apply_local_watchlist_changes
    apply_remote_watchlist_changes union table import_loop remove_rows failures
program = tt

abbrev baseline : List String
baseline = "movie:1" ∷ "movie:2" ∷ "movie:3" ∷ []

abbrev local : List String
local = "movie:1" ∷ "movie:4" ∷ []

abbrev remote : List String
remote = "movie:1" ∷ "movie:2" ∷ "movie:5" ∷ []

abbrev run : Run
run = record {
  remote = some remote;
  api_key = true;
  import_ok = λ k. true;
  add_call = λ k. declined;
  remove_call = λ k. done;
}

abbrev list : Managed
list = record { exists = true; rows = local }

new_keys :
    (reconcile_plex_watchlist run (linked (some baseline) list)).synced_keys
    ≡ some ("movie:1" ∷ "movie:5" ∷ [])
unfolding program
new_keys = refl

fine : (plan_of (linked (some baseline) list) remote).suppressed ≡ false
unfolding program
fine = refl

plan-table_example :
    Plans (plan_watchlist_reconcile local remote (some baseline) true true) "movie:4" (
      table true true
        (contains local "movie:4")
        (contains remote "movie:4")
        (contains baseline "movie:4"))
plan-table_example = plan-table local remote baseline true true "movie:4" fine

plan-Safe_example :
    Safe
      (set_of remote)
      (set_of baseline)
      (plan_watchlist_reconcile local remote (some baseline) true false)
plan-Safe_example = plan-Safe local remote baseline true false

abbrev later : List String
later = "movie:1" ∷ "movie:5" ∷ []

follows : RemoteFollows run (plan_of (linked (some baseline) list) remote) remote later
unfolding program
follows a = ground (
  arith,
  eq_iff a "movie:1",
  eq_iff a "movie:2",
  eq_iff a "movie:5",
  eq_iff "movie:2" "movie:5",
  eq_iff "movie:1" "movie:2",
)

reconcile-Retries_example :
    Retries run
      (plan_of (linked (some baseline) list) remote)
      (plan_of (reconcile_plex_watchlist run (linked (some baseline) list)) later)
      "movie:4"
reconcile-Retries_example =
    reconcile-Retries (some baseline) list run remote later refl fine follows "movie:4"
