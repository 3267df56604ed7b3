-- ===== src/Watchlist/Retry.antt =====
-- Two reconciliations in a row, with both directions on: what failed in the first is planned again
-- by the second, and nothing else is.
use scrob.Prelude.{
  String, ◌≡◌, Bool, true, false, not, ◌&&◌, ◌||◌, Option, some, List, [], arith, string_eq,
  contains, ◌∙◌,
}
use scrob.Watchlist.{sorted, ReconcilePlan}
use scrob.Watchlist.Apply.{
  is_done, Managed, Link, Run, local_keys, effective_baseline, plan_of, apply_plan,
  apply_local_watchlist_changes, failures, reconcile_plex_watchlist, apply_remote_watchlist_changes,
}
use scrob.Watchlist.Apply.Members.{
  contains-after, contains-baseline, contains-failures, contains-sorted, kept,
}
use scrob.Watchlist.TwoWay.{in_baseline, two_way, plan-two_way, unsuppressed}

-- A connection with both directions on.
abbrev pub linked : Option (List String) → Managed → Link
linked keys m = record {
  plex_sync_watchlist = true;
  plex_push_watchlist = true;
  synced_keys = keys;
  list = m;
}

-- Plex's list after the run: the calls that succeeded took effect, and nothing else did.
abbrev pub RemoteFollows : Run → ReconcilePlan → List String → List String → Type 0
RemoteFollows run p r r' =
    (a : String)
    → contains r' a ≡ (
        (contains r a || (contains p.push_add a && is_done (run.add_call a)))
        && not (contains p.push_remove a && is_done (run.remove_call a)))

-- The next plan `p'` against the plan `p` that was applied.
pub record Retries (run : Run) (p p' : ReconcilePlan) (a : String) : Type 0 where
  pub imports :
      contains p'.add_local a ≡ (contains p.add_local a && not (run.api_key && run.import_ok a))
  pub removals : contains p'.remove_local a ≡ false
  pub push_adds : contains p'.push_add a ≡ (contains p.push_add a && not (is_done (run.add_call a)))
  pub push_removes :
      contains p'.push_remove a ≡ (contains p.push_remove a && not (is_done (run.remove_call a)))

exists-kept :
    (api_key : Bool) (ok : String → Bool) (m : Managed) (p : ReconcilePlan)
    → m.exists ≡ true
    → (apply_local_watchlist_changes api_key ok m p).0.exists ≡ true
unfolding apply_local_watchlist_changes
exists-kept api_key ok m p h = ground arith

no_rows : (m : Managed) (a : String) → m.exists ≡ false → contains (local_keys m) a ≡ false
unfolding contains
no_rows m a h = ground arith

module _ (keys : Option (List String)) (m : Managed) (run : Run) (r r' : List String)
    (fine : (plan_of (linked keys m) r).suppressed ≡ false)
    (follows : RemoteFollows run (plan_of (linked keys m) r) r r') where
  abbrev p : ReconcilePlan
  p = plan_of (linked keys m) r

  abbrev c' : Link
  c' = apply_plan run (linked keys m) p

  abbrev fa : List String
  fa = failures run.add_call [] (sorted p.push_add)

  abbrev fr : List String
  fr = failures run.remove_call [] (sorted p.push_remove)

  now :
      (a : String)
      → (contains p.add_local a ≡ (
          contains r a
          && not (contains (local_keys m) a)
          && not (in_baseline (effective_baseline (linked keys m)) a)))
        × (contains p.remove_local a ≡ (
            contains (local_keys m) a
            && not (contains r a)
            && in_baseline (effective_baseline (linked keys m)) a))
        × (contains p.push_add a ≡ (
            contains (local_keys m) a
            && not (contains r a)
            && not (in_baseline (effective_baseline (linked keys m)) a)))
        × (contains p.push_remove a ≡ (
            contains r a
            && not (contains (local_keys m) a)
            && in_baseline (effective_baseline (linked keys m)) a))
  now a = plan-two_way (local_keys m) r a (effective_baseline (linked keys m)) fine

  after-kept :
      (a : String)
      → (contains (local_keys (apply_local_watchlist_changes run.api_key run.import_ok m p).0) a
          ≡ kept run.api_key run.import_ok m p a)
        × (contains (apply_local_watchlist_changes run.api_key run.import_ok m p).1 a
            ≡ kept run.api_key run.import_ok m p a)
  after-kept a = contains-after run.api_key run.import_ok m p a (λ h. ground (arith, now a))

  next_keys : (a : String) → contains (local_keys c'.list) a ≡ kept run.api_key run.import_ok m p a
  unfolding apply_plan
  next_keys a = (after-kept a).0

  next-in_baseline :
      (a : String)
      → in_baseline (effective_baseline c') a ≡ (
          c'.list.exists
          && ((kept run.api_key run.import_ok m p a
                || (contains p.push_remove a && not (is_done (run.remove_call a))))
              && not (contains p.push_add a && not (is_done (run.add_call a)))))
  unfolding apply_plan apply_remote_watchlist_changes contains
  next-in_baseline a = ground (
    arith,
    after-kept a,
    contains-baseline (apply_local_watchlist_changes run.api_key run.import_ok m p).1 fa fr a,
    contains-failures run.add_call [] (sorted p.push_add) a,
    contains-failures run.remove_call [] (sorted p.push_remove) a,
    contains-sorted p.push_add a,
    contains-sorted p.push_remove a,
  )

  next-exists : c'.list.exists ≡ false → m.exists ≡ false
  unfolding apply_plan
  next-exists h = ground (arith, exists-kept run.api_key run.import_ok m p)

  no_baseline :
      m.exists ≡ false → (a : String) → in_baseline (effective_baseline (linked keys m)) a ≡ false
  no_baseline h a = ground arith

  -- The next run has nothing to remove locally.
  next_removals :
      (a : String)
      → (contains (local_keys c'.list) a
          && not (contains r' a)
          && in_baseline (effective_baseline c') a)
        ≡ false
  next_removals a = ground (arith, now a, next_keys a, next-in_baseline a, follows a)

  next-Retries :
      (a : String) → Retries run p (two_way (local_keys c'.list) r' (effective_baseline c')) a
  next-Retries a =
      let free = unsuppressed (local_keys c'.list) r' (effective_baseline c') next_removals in
      let (e, f, g, k) = plan-two_way (local_keys c'.list) r' a (effective_baseline c') free in
      record {
        imports = ground (
          arith,
          e,
          now a,
          next_keys a,
          next-in_baseline a,
          follows a,
          next-exists,
          no_rows c'.list a,
          no_rows m a,
          no_baseline,
        );
        removals = f ∙ next_removals a;
        push_adds = ground (
          arith,
          g,
          now a,
          next_keys a,
          next-in_baseline a,
          follows a,
          next-exists,
          no_rows c'.list a,
          no_rows m a,
          no_baseline,
        );
        push_removes = ground (
          arith,
          k,
          now a,
          next_keys a,
          next-in_baseline a,
          follows a,
          next-exists,
          no_rows c'.list a,
          no_rows m a,
          no_baseline,
        );
      }

reconcile-apply :
    (keys : Option (List String)) (m : Managed) (run : Run) (r : List String)
    → run.remote ≡ some r
    → (plan_of (linked keys m) r).suppressed ≡ false
    → reconcile_plex_watchlist run (linked keys m)
      ≡ apply_plan run (linked keys m) (plan_of (linked keys m) r)
unfolding reconcile_plex_watchlist
reconcile-apply keys m run r e h = ground arith

-- With both directions on, after a run that was not suppressed and that Plex's list followed, the
-- plan of the next run imports again exactly the imports that failed, pushes again exactly the
-- additions and the removals whose call failed, and removes nothing locally: what worked is
-- never undone, and when all worked the two lists are in sync.
pub reconcile-Retries :
    (keys : Option (List String)) (m : Managed) (run : Run) (r r' : List String)
    → run.remote ≡ some r
    → (plan_of (linked keys m) r).suppressed ≡ false
    → RemoteFollows run (plan_of (linked keys m) r) r r'
    → (a : String)
    → Retries run
        (plan_of (linked keys m) r)
        (plan_of (reconcile_plex_watchlist run (linked keys m)) r')
        a
unfolding apply_plan
reconcile-Retries keys m run r r' e fine follows a =
    rw (reconcile-apply keys m run r e fine) (next-Retries keys m run r r' fine follows a)
