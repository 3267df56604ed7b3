-- ===== src/Watchlist/Table.antt =====
-- The table of the module's doc comment (backend/core/watchlist_reconcile.py), and the plan.
use scrob.Prelude.{
  String, ◌≡◌, Bool, true, false, not, ◌&&◌, some, List, arith, contains, contains-set_of, set_of,
  string_eq, ◌||◌, ◌∙◌,
}
use scrob.Watchlist.{ReconcilePlan, Actions, planned, guarded, classified, plan_watchlist_reconcile}
use scrob.Watchlist.Classify.{
  add_local-classified, remove_local-classified, push_add-classified, push_remove-classified,
}

pub data Move : Type 0 where
  leaves adds_local removes_local pushes_add pushes_remove : Move

-- The rows of the table: pull, push, then the columns L R B.
unfoldable pub table : Bool → Bool → Bool → Bool → Bool → Move
table true true true false false = pushes_add
table true true false true false = adds_local
table true true true false true = removes_local
table true true false true true = pushes_remove
table true false true false false = removes_local
table true false false true false = adds_local
table true false true false true = removes_local
table true false false true true = adds_local
table false true true false false = pushes_add
table false true false true false = leaves
table false true true false true = pushes_add
table false true false true true = pushes_remove
table _ _ _ _ _ = leaves

abbrev pub is_add_local : Move → Bool
is_add_local m = elim m [ adds_local ↦ true | _ ↦ false ]

abbrev pub is_remove_local : Move → Bool
is_remove_local m = elim m [ removes_local ↦ true | _ ↦ false ]

abbrev pub is_push_add : Move → Bool
is_push_add m = elim m [ pushes_add ↦ true | _ ↦ false ]

abbrev pub is_push_remove : Move → Bool
is_push_remove m = elim m [ pushes_remove ↦ true | _ ↦ false ]

-- The key stands in the set of its move, and in no other set.
pub record Plans (p : ReconcilePlan) (key : String) (m : Move) : Type 0 where
  pub adds : contains p.add_local key ≡ is_add_local m
  pub removes : contains p.remove_local key ≡ is_remove_local m
  pub push_adds : contains p.push_add key ≡ is_push_add m
  pub push_removes : contains p.push_remove key ≡ is_push_remove m

pub guarded-planned :
    (r b : List String) (s : Actions)
    → (guarded r b s).suppressed ≡ false
    → guarded r b s ≡ planned s
unfolding guarded
guarded-planned r b s h = ground arith

-- The four tests of the loops are the columns of the table.
module _ (pull push x y z : Bool) where
  table-add_local : (y && not x && (pull && not (z && push))) ≡ is_add_local (table pull push x y z)
  unfolding table
  table-add_local = ground arith

  table-remove_local :
      (x && not y && (pull && (z || not push))) ≡ is_remove_local (table pull push x y z)
  unfolding table
  table-remove_local = ground arith

  table-push_add : (x && not y && (push && not (z && pull))) ≡ is_push_add (table pull push x y z)
  unfolding table
  table-push_add = ground arith

  table-push_remove : (y && not x && (push && z)) ≡ is_push_remove (table pull push x y z)
  unfolding table
  table-push_remove = ground arith

module _ (l r b : List String) (pull push : Bool) (key : String) where
  classified-Plans :
      Plans
        (planned (classified l r b pull push))
        key
        (table pull push (contains l key) (contains r key) (contains b key))
  classified-Plans = record {
    adds = add_local-classified l r b pull push key ∙ table-add_local pull push _ _ _;
    removes = remove_local-classified l r b pull push key ∙ table-remove_local pull push _ _ _;
    push_adds = push_add-classified l r b pull push key ∙ table-push_add pull push _ _ _;
    push_removes = push_remove-classified l r b pull push key ∙ table-push_remove pull push _ _ _;
  }

-- Against a baseline, a plan that is not suppressed does with each key exactly what the table
-- says for the two direction flags and for where the key is found, and nothing else.
pub plan-table :
    (local remote baseline : List String) (pull push : Bool) (key : String)
    → (plan_watchlist_reconcile local remote (some baseline) pull push).suppressed ≡ false
    → Plans
        (plan_watchlist_reconcile local remote (some baseline) pull push)
        key
        (table pull push (contains local key) (contains remote key) (contains baseline key))
unfolding plan_watchlist_reconcile
plan-table local remote baseline pull push key h =
    let l = set_of local in
    let r = set_of remote in
    let b = set_of baseline in
    rw
      (
        guarded-planned r b (classified l r b pull push) h,
        ← contains-set_of local key,
        ← contains-set_of remote key,
        ← contains-set_of baseline key,
      )
      (classified-Plans l r b pull push key)
