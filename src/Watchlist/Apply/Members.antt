-- ===== src/Watchlist/Apply/Members.antt =====
-- Which keys the appliers leave in the list, in `applied`, among the failures and in the baseline.
use scrob.Prelude.{
  String, ◌≡◌, refl, Bool, true, not, ◌&&◌, ◌||◌, List, [], ◌∷◌, arith, if◌then◌else◌, ◌==◌,
  string_eq, contains, add, contains-add, contains-filter, contains-set_of, contains-union, set_of,
  difference, intersection, union,
}
use scrob.Watchlist.{ReconcilePlan, truthy, insert_sorted, sorted, compute_new_baseline}
use scrob.Watchlist.Apply.{
  Call, is_done, Managed, local_keys, import_loop, remove_rows, apply_local_watchlist_changes,
  failures,
}

contains-insert_sorted :
    (k : String) (ks : List String) (a : String)
    → contains (insert_sorted k ks) a ≡ (a == k || contains ks a)
unfolding insert_sorted contains
contains-insert_sorted k [] a = refl
contains-insert_sorted k (j ∷ ks) a = ground (arith, contains-insert_sorted k ks a)

pub contains-sorted : (ks : List String) (a : String) → contains (sorted ks) a ≡ contains ks a
unfolding sorted contains
contains-sorted [] a = refl
contains-sorted (k ∷ ks) a =
    ground (arith, contains-sorted ks a, contains-insert_sorted k (sorted ks) a)

pub contains-baseline :
    (final failed_add failed_remove : List String) (a : String)
    → contains (compute_new_baseline final failed_add failed_remove) a
      ≡ ((contains final a || contains failed_remove a) && not (contains failed_add a))
unfolding compute_new_baseline
contains-baseline final failed_add failed_remove a = ground (
  arith,
  contains-sorted (difference (union (set_of final) (set_of failed_remove)) (set_of failed_add)) a,
  contains-filter (λ k. not (contains (set_of failed_add) k))
      (union (set_of final) (set_of failed_remove)) a,
  contains-union (set_of final) (set_of failed_remove) a,
  contains-set_of final a,
  contains-set_of failed_add a,
  contains-set_of failed_remove a,
)

pub contains-failures :
    (call : String → Call) (failed ks : List String) (a : String)
    → contains (failures call failed ks) a
      ≡ (contains failed a || (contains ks a && not (is_done (call a))))
unfolding failures contains
contains-failures call failed [] a = ground arith
contains-failures call failed (k ∷ ks) a = ground (
  arith,
  string_eq.same_iff a k,
  contains-add k failed a,
  contains-failures call (if is_done (call k) then failed else add k failed) ks a,
)

contains-import_rows :
    (ok : String → Bool) (rows applied ks : List String) (a : String)
    → contains (import_loop ok rows applied ks).0 a ≡ (contains rows a || (contains ks a && ok a))
unfolding import_loop contains
contains-import_rows ok rows applied [] a = ground arith
contains-import_rows ok rows applied (k ∷ ks) a = ground (
  arith,
  string_eq.same_iff a k,
  contains-add k rows a,
  contains-import_rows ok (if ok k then add k rows else rows)
      (if ok k then add k applied else applied) ks a,
)

contains-import_applied :
    (ok : String → Bool) (rows applied ks : List String) (a : String)
    → contains (import_loop ok rows applied ks).1 a
      ≡ (contains applied a || (contains ks a && ok a))
unfolding import_loop contains
contains-import_applied ok rows applied [] a = ground arith
contains-import_applied ok rows applied (k ∷ ks) a = ground (
  arith,
  string_eq.same_iff a k,
  contains-add k applied a,
  contains-import_applied ok (if ok k then add k rows else rows)
      (if ok k then add k applied else applied) ks a,
)

pub truthy_of_contains : (xs : List String) (a : String) → contains xs a ≡ true → truthy xs ≡ true
unfolding contains
truthy_of_contains [] a h = ground arith
truthy_of_contains (x ∷ xs) a h = refl

-- The keys after the local side: those of before and the imports that worked, less the removals.
abbrev pub kept : Bool → (String → Bool) → Managed → ReconcilePlan → String → Bool
kept api_key ok m plan a =
    (contains (local_keys m) a || (contains plan.add_local a && (api_key && ok a)))
    && not (contains plan.remove_local a)

remove_rows-rows :
    (l : List String) (plan : ReconcilePlan) (m : Managed) (applied : List String) (a : String)
    → (contains plan.remove_local a ≡ true → contains l a ≡ true)
    → (contains plan.remove_local a ≡ true → m.exists ≡ true)
    → contains (local_keys (remove_rows l plan m applied).0) a
      ≡ (contains (local_keys m) a && not (contains plan.remove_local a))
unfolding remove_rows contains
remove_rows-rows l plan m applied a inside there = ground (
  arith,
  truthy_of_contains plan.remove_local a,
  contains-filter (λ k. not (contains (intersection plan.remove_local l) k)) m.rows a,
  contains-filter (contains l) plan.remove_local a,
)

remove_rows-applied :
    (l : List String) (plan : ReconcilePlan) (m : Managed) (applied : List String) (a : String)
    → (contains plan.remove_local a ≡ true → m.exists ≡ true)
    → contains (remove_rows l plan m applied).1 a
      ≡ (contains applied a && not (contains plan.remove_local a))
unfolding remove_rows
remove_rows-applied l plan m applied a there = ground (
  arith,
  truthy_of_contains plan.remove_local a,
  contains-filter (λ k. not (contains plan.remove_local k)) applied a,
)

module _ (api_key : Bool) (ok : String → Bool) (m : Managed) (plan : ReconcilePlan)
    (a : String) where
  abbrev after : Managed × List String
  after = apply_local_watchlist_changes api_key ok m plan

  local-exists : contains (local_keys m) a ≡ true → m.exists ≡ true
  unfolding contains
  local-exists h = ground arith

  -- The rows of the list and `applied`, from which the baseline is made, are the same keys.
  pub contains-after :
      (contains plan.remove_local a ≡ true → contains (local_keys m) a ≡ true)
      → (contains (local_keys after.0) a ≡ kept api_key ok m plan a)
        × (contains after.1 a ≡ kept api_key ok m plan a)
  unfolding apply_local_watchlist_changes
  contains-after inside =
      let l = local_keys m in
      let imported = import_loop ok l (set_of l) (sorted plan.add_local) in
      let m' : Managed = record { exists = true; rows = imported.0 } in
      ground (
        arith,
        local-exists,
        contains-set_of l a,
        contains-sorted plan.add_local a,
        truthy_of_contains plan.add_local a,
        contains-import_rows ok l (set_of l) (sorted plan.add_local) a,
        contains-import_applied ok l (set_of l) (sorted plan.add_local) a,
        remove_rows-rows l plan m (set_of l) a,
        remove_rows-rows l plan m' imported.1 a,
        remove_rows-applied l plan m (set_of l) a,
        remove_rows-applied l plan m' imported.1 a,
      )
