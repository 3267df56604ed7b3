-- ===== src/PushState/Load.antt =====
-- What a later push makes of the rows that a save left.
use scrob.Prelude.{
  ℕ, ◌≡◌, ◌↔◌, refl, Bool, true, false, ◌&&◌, ◌||◌, Option, none, some, [], ◌∷◌, arith, leb, ltb,
  if◌then◌else◌, ◌==◌, nat_eq, pair_eq, contains, contains-add,
}
use scrob.Prelude.Clock.{Time}
use scrob.Prelude.Dict.{
  Dict, get, put, DistinctKeys, get-put, get-eq-none, get-filter, DistinctKeys-put,
}
use scrob.Prelude.Text.{Text, text_eq}
use scrob.PushState.{
  Item, Row, Table, PushState, PushPlan, rows_of, record_value, fail, load, unchanged, distance,
  epsilon, miss,
}
use scrob.PushState.Save.{pending, is_pending, save, startswith}
use scrob.PushState.Save.Saved.{get-save, save-DistinctKeys}

item_eq : (i item : Item) → ((i == item) ≡ true) ↔ (i ≡ item)
item_eq i item = ground (arith, text_eq.same_iff i.1 item.1)

get-rows_of :
    (c : ℕ) (t : Table) (d : Dict Item Row) (item : Item)
    → DistinctKeys t
    → get (rows_of c t d) item ≡ elim (get t (c, item)) [ none ↦ get d item | some row ↦ some row ]
unfolding rows_of get
get-rows_of c [] d item h = refl
get-rows_of c (((c', i), row) ∷ t) d item (h, hs) = ground (
  arith,
  get-rows_of c t (if c' == c then put i row d else d) item hs,
  get-put i row d item,
  get-eq-none t (c', i) h,
  item_eq i item,
)

-- Whether a run under this plan believes a row of that time.
abbrev pub believes : PushPlan → Time → Bool
believes plan at =
    plan.use_state || elim plan.resume_since [ none ↦ false | some since ↦ leb since at ]

-- The answer for an item, from its row in the table.
abbrev pub answer : PushPlan → Option ℕ → Option Row → Bool
answer plan (some w) (some (some v, at)) = believes plan at && ltb (distance v w) epsilon
answer plan _ _ = false

unchanged-load :
    (t : Table) (c : ℕ) (plan : PushPlan) (now : Time) (m : ℕ) (k : Text) (w : Option ℕ)
    → DistinctKeys t
    → (unchanged m k w (load t c plan now)).1 ≡ answer plan w (get t (c, (m, k)))
unfolding unchanged load get
unchanged-load t c plan now m k w h = ground (arith, get-rows_of c t [] (m, k) h)

get-pending :
    (s : PushState) (item : Item)
    → DistinctKeys s.updates
    → get (pending s) item ≡ elim (get s.updates item) [
      | none ↦ none
      | some v ↦ if is_pending s (item, v) then some v else none
    ]
unfolding pending
get-pending s item h = get-filter (is_pending s) s.updates item h

-- What was pushed and did not fail is skipped by a later push exactly if that push believes rows
-- of this run's time and the value is the same within the tolerance. (Updates and table have one
-- entry a key.)
pub pushed-unchanged :
    (s : PushState) (t : Table) (c m : ℕ) (k : Text) (v w : ℕ) (plan : PushPlan) (now : Time)
    → DistinctKeys s.updates
    → DistinctKeys t
    → contains s.failed (m, k) ≡ false
    → (unchanged m k (some w) (load (save c (record_value m k (some v) s) t).1 c plan now)).1
      ≡ (believes plan s.now && ltb (distance v w) epsilon)
unfolding record_value
pushed-unchanged s t c m k v w plan now h d ok =
    let s' = record_value m k (some v) s in
    let h' = DistinctKeys-put (m, k) (some v) s.updates h in
    ground (
      arith,
      unchanged-load (save c s' t).1 c plan now m k (some w) (save-DistinctKeys c s' t d),
      get-save c s' t c m k h' d,
      get-pending s' (m, k) h',
      get-put (m, k) (some v) s.updates (m, k),
      item_eq (m, k) (m, k),
    )

-- An item of which one push failed is as if this run had not pushed it: a later push answers for
-- it as it would from the table before. (Not a miss, not forgotten; one entry a key.)
pub failed-unchanged :
    (s : PushState) (t : Table) (c m : ℕ) (k : Text) (w : Option ℕ) (plan : PushPlan) (now : Time)
    → DistinctKeys s.updates
    → DistinctKeys t
    → startswith miss k ≡ false
    → contains s.forgotten (m, k) ≡ false
    → (unchanged m k w (load (save c (fail m k s) t).1 c plan now)).1
      ≡ (unchanged m k w (load t c plan now)).1
unfolding fail
failed-unchanged s t c m k w plan now h d no_miss kept =
    let s' = fail m k s in
    ground (
      arith,
      unchanged-load (save c s' t).1 c plan now m k w (save-DistinctKeys c s' t d),
      unchanged-load t c plan now m k w d,
      get-save c s' t c m k h d,
      get-pending s' (m, k) h,
      contains-add (m, k) s.failed (m, k),
      item_eq (m, k) (m, k),
    )
