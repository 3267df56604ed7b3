-- ===== src/Watchlist/Apply.antt =====
-- The rest of `_reconcile_plex_watchlist` (backend/routers/sync.py): the local side and the remote
-- side of a plan are applied, and the next baseline is stored.
pub mod Members
use scrob.Prelude.{
  String, Bool, true, false, not, ◌&&◌, ◌||◌, Option, none, some, List, [], ◌∷◌, if◌then◌else◌,
  string_eq, contains, add, set_of, difference, intersection,
}
use scrob.Watchlist.{ReconcilePlan, truthy, sorted, plan_watchlist_reconcile, compute_new_baseline}

-- How one call to Plex ends: no ratingKey was found, Plex declined, the call raised, or it worked.
pub data Call : Type 0 where
  unresolved declined raised done : Call

abbrev pub is_done : Call → Bool
is_done done = true
is_done _ = false

-- The managed list: whether its row exists, and the typed keys of its items.
pub record Managed : Type 0 where
  pub exists : Bool
  pub rows : List String

-- `for key in sorted(plan.add_local)`: a savepoint each, and a failed import changes nothing.
-- The pair is the list's rows and `applied`.
unfoldable pub import_loop :
    (String → Bool) → List String → List String → List String → List String × List String
import_loop import_ok rows applied [] = (rows, applied)
import_loop import_ok rows applied (key ∷ keys) =
    import_loop import_ok (if import_ok key then add key rows else rows)
      (if import_ok key then add key applied else applied) keys

abbrev pub local_keys : Managed → List String
local_keys m = if m.exists then m.rows else []

-- `plan.remove_local`, deleted from the rows and from `applied`.
unfoldable pub remove_rows :
    List String → ReconcilePlan → Managed → List String → Managed × List String
remove_rows local_by_key plan m applied =
    if truthy plan.remove_local && m.exists
    then (
      record m { rows = difference m.rows (intersection plan.remove_local local_by_key) },
      difference applied plan.remove_local,
    )
    else (m, applied)

unfoldable pub apply_local_watchlist_changes :
    Bool → (String → Bool) → Managed → ReconcilePlan → Managed × List String
unfolding remove_rows
apply_local_watchlist_changes api_key import_ok m plan =
    let local_by_key = local_keys m in
    let applied = set_of local_by_key in
    if truthy plan.add_local && api_key
    then (let (rows, applied') =
          import_loop import_ok local_by_key applied (sorted plan.add_local) in
        remove_rows local_by_key plan (record { exists = true; rows = rows }) applied')
    else remove_rows local_by_key plan m applied

-- The keys whose call did not succeed; both loops of `_apply_remote_watchlist_changes`.
unfoldable pub failures : (String → Call) → List String → List String → List String
failures call failed [] = failed
failures call failed (key ∷ keys) =
    failures call (if is_done (call key) then failed else add key failed) keys

unfoldable pub apply_remote_watchlist_changes :
    (String → Call) → (String → Call) → ReconcilePlan → List String × List String
unfolding failures
apply_remote_watchlist_changes add_call remove_call plan =
    (failures add_call [] (sorted plan.push_add), failures remove_call [] (sorted plan.push_remove))

-- The connection's columns with the managed list of its user.
pub record Link : Type 0 where
  pub plex_sync_watchlist : Bool
  pub plex_push_watchlist : Bool
  pub synced_keys : Option (List String)
  pub list : Managed

-- What the run meets: `remote` is `none` if the fetch raises.
pub record Run : Type 0 where
  pub remote : Option (List String)
  pub api_key : Bool
  pub import_ok : String → Bool
  pub add_call : String → Call
  pub remove_call : String → Call

-- A baseline whose managed list was deleted counts as none.
abbrev pub effective_baseline : Link → Option (List String)
effective_baseline c = if c.list.exists then c.synced_keys else none

abbrev pub plan_of : Link → List String → ReconcilePlan
plan_of c remote =
    plan_watchlist_reconcile (local_keys c.list) remote (effective_baseline c) c.plex_sync_watchlist
      c.plex_push_watchlist

unfoldable pub apply_plan : Run → Link → ReconcilePlan → Link
apply_plan run c plan =
    let (m, applied) = apply_local_watchlist_changes run.api_key run.import_ok c.list plan in
    let (failed_add, failed_remove) =
      apply_remote_watchlist_changes run.add_call run.remove_call plan in
    record c {
      list = m;
      synced_keys = some (compute_new_baseline applied failed_add failed_remove);
    }

unfoldable pub reconcile_plex_watchlist : Run → Link → Link
reconcile_plex_watchlist run c =
    if not (c.plex_sync_watchlist || c.plex_push_watchlist) then c else elim run.remote [
      | none ↦ c
      | some remote ↦
          (let plan = plan_of c remote in if plan.suppressed then c else apply_plan run c plan)
    ]
