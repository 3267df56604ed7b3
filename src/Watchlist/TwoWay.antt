-- ===== src/Watchlist/TwoWay.antt =====
-- One plan with both directions on, with or without a baseline.
use scrob.Prelude.{
  String, ◌≡◌, refl, Bool, true, false, not, ◌&&◌, Option, none, some, List, [], ◌∷◌, arith,
  string_eq, contains, contains-set_of, set_of,
}
use scrob.Watchlist.{ReconcilePlan, Actions, truthy, guarded, classified, plan_watchlist_reconcile}
use scrob.Watchlist.Classify.{remove_local-classified}
use scrob.Watchlist.Table.{table, plan-table}
use scrob.Watchlist.Breaker.{plan_first-adds}

abbrev pub in_baseline : Option (List String) → String → Bool
in_baseline none a = false
in_baseline (some b) a = contains b a

abbrev pub two_way : List String → List String → Option (List String) → ReconcilePlan
two_way l r b = plan_watchlist_reconcile l r b true true

-- With both directions on, the sets of a plan are those of the table's first column.
module _ (l r : List String) (a : String) where
  pub plan-two_way :
      (b : Option (List String))
      → (two_way l r b).suppressed ≡ false
      → (contains (two_way l r b).add_local a
          ≡ (contains r a && not (contains l a) && not (in_baseline b a)))
        × (contains (two_way l r b).remove_local a
            ≡ (contains l a && not (contains r a) && in_baseline b a))
        × (contains (two_way l r b).push_add a
            ≡ (contains l a && not (contains r a) && not (in_baseline b a)))
        × (contains (two_way l r b).push_remove a
            ≡ (contains r a && not (contains l a) && in_baseline b a))
  unfolding table contains
  plan-two_way none h =
      let (e, f, _, g, k) = plan_first-adds l r true true a in ground (arith, e, f, g, k)
  plan-two_way (some b) h =
      let p = plan-table l r b true true a h in
      ground (arith, p.adds, p.removes, p.push_adds, p.push_removes)

truthy-false : (xs : List String) → ((a : String) → contains xs a ≡ false) → truthy xs ≡ false
unfolding contains
truthy-false [] h = refl
truthy-false (x ∷ xs) h = ground (arith, h x, string_eq.same_iff x x)

guarded_no_removal :
    (r b : List String) (s : Actions)
    → truthy s.remove_local ≡ false
    → (guarded r b s).suppressed ≡ false
unfolding guarded
guarded_no_removal r b s h = ground arith

-- A plan that has nothing to remove locally is not suppressed.
pub unsuppressed :
    (l r : List String) (b : Option (List String))
    → ((a : String) → (contains l a && not (contains r a) && in_baseline b a) ≡ false)
    → (two_way l r b).suppressed ≡ false
unfolding plan_watchlist_reconcile
unsuppressed l r none h = refl
unsuppressed l r (some b) h =
    guarded_no_removal (set_of r) (set_of b) (classified (set_of l) (set_of r) (set_of b) true true)
      (truthy-false _ λ a. ground (
        arith,
        h a,
        contains-set_of l a,
        contains-set_of r a,
        contains-set_of b a,
        remove_local-classified (set_of l) (set_of r) (set_of b) true true a,
      ))
