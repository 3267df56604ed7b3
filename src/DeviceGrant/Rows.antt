-- ===== src/DeviceGrant/Rows.antt =====
-- Rows of `oauth_device_grants`: what a select finds and what a commit leaves.
use mathlib.Core.Path.{subst}
use mathlib.Core.List.{head-eq_of_cons-eq, tail-eq_of_cons-eq}
use scrob.Prelude.{
  ap, sym, ◌∙◌, ◌≡◌, refl, Bool, true, false, List, [], ◌∷◌, ◌⊎◌, inl, inr, Bool-cases, ◌==◌,
  nat_eq, filter, All, All-filter, filter-All,
}
use scrob.DeviceGrant.{
  Grant, Server, Found, nothing, several, one, select, scalar_one_or_none, store,
}

pub Found-cases : (f : Found) → (f ≡ nothing) ⊎ (f ≡ several) ⊎ ((g : Grant) × (f ≡ one g))
Found-cases nothing = inl refl
Found-cases several = inr (inl refl)
Found-cases (one g) = inr (inr (g, refl))

scalar-one : (gs : List Grant) (g : Grant) → scalar_one_or_none gs ≡ one g → gs ≡ g ∷ []
unfolding scalar_one_or_none
scalar-one [] g h = cc
scalar-one (x ∷ []) g h = cc
scalar-one (x ∷ y ∷ gs) g h = cc

module _ (P : Grant → Type 0) (p : Grant → Bool) (s : Server) (g : Grant) where
  -- What all rows have, the selected row has.
  pub select-All : select p s ≡ one g → All P s.grants → P g
  select-All h all =
      (subst (All P) (scalar-one (filter p s.grants) g h) (All-filter P p s.grants all)).0

pub select-holds : (p : Grant → Bool) (s : Server) (g : Grant) → select p s ≡ one g → p g ≡ true
select-holds p s g h =
    (subst (All (λ x. p x ≡ true)) (scalar-one (filter p s.grants) g h) (filter-All p s.grants)).0

pub store-All :
    (P : Grant → Type 0) (g : Grant) (gs : List Grant) → P g → All P gs → All P (store g gs)
unfolding store
store-All P g [] h all = tt
store-All P g (x ∷ gs) h all = elim (Bool-cases (x.id == g.id)) [
  | inl e ↦ rw e (h, store-All P g gs h all.1)
  | inr e ↦ rw e (all.0, store-All P g gs h all.1)
]

none_store :
    (p : Grant → Bool) (Q : Grant → Type 0) (g : Grant) (gs : List Grant)
    → filter p gs ≡ []
    → Q g
    → All (λ x. p x ≡ true → Q x) (store g gs)
unfolding store
none_store p Q g [] e q = tt
none_store p Q g (x ∷ gs) e q = elim (Bool-cases (p x)) [
  | inl is ↦ absurd (cc (rw is at e))
  | inr isnt ↦
      let rest = none_store p Q g gs (rw isnt at e) q in
      elim (Bool-cases (x.id == g.id)) [
        | inl same ↦ rw same (λ h. q, rest)
        | inr other ↦ rw other (λ h. absurd (cc (h, isnt)), rest)
      ]
]

only_store :
    (p : Grant → Bool) (Q : Grant → Type 0) (g g' : Grant) (gs : List Grant)
    → filter p gs ≡ g ∷ []
    → g'.id ≡ g.id
    → Q g'
    → All (λ x. p x ≡ true → Q x) (store g' gs)
unfolding store
only_store p Q g g' [] e i q = tt
only_store p Q g g' (x ∷ gs) e i q = elim (Bool-cases (p x)) [
  | inl is ↦
      let here : x.id ≡ g'.id =
        ap (λ (y : Grant). y.id) (head-eq_of_cons-eq (rw is at e)) ∙ sym i in
      rw ((nat_eq.same_iff x.id g'.id).1 here)
        (λ h. q, none_store p Q g' gs (tail-eq_of_cons-eq (rw is at e)) q)
  | inr isnt ↦
      let rest = only_store p Q g g' gs (rw isnt at e) i q in
      elim (Bool-cases (x.id == g'.id)) [
        | inl same ↦ rw same (λ h. q, rest)
        | inr other ↦ rw other (λ h. absurd (cc (h, isnt)), rest)
      ]
]

-- If one row alone passes the test, then after a commit to it every row that does has what the
-- new row has.
pub store-only :
    (p : Grant → Bool) (Q : Grant → Type 0) (g g' : Grant) (s : Server)
    → select p s ≡ one g
    → g'.id ≡ g.id
    → Q g'
    → All (λ x. p x ≡ true → Q x) (store g' s.grants)
store-only p Q g g' s e i q = only_store p Q g g' s.grants (scalar-one (filter p s.grants) g e) i q

pub store-id :
    (Q : Grant → Type 0) (g : Grant) (gs : List Grant)
    → Q g
    → All (λ x. x.id ≡ g.id → Q x) (store g gs)
unfolding store
store-id Q g [] q = tt
store-id Q g (x ∷ gs) q = elim (Bool-cases (x.id == g.id)) [
  | inl same ↦ rw same (λ h. q, store-id Q g gs q)
  | inr other ↦
      rw other (λ h. absurd (cc ((nat_eq.same_iff x.id g.id).1 h, other)), store-id Q g gs q)
]

filter-nothing : (p : Grant → Bool) (gs : List Grant) → All (λ x. p x ≡ false) gs → filter p gs ≡ []
filter-nothing p [] h = refl
filter-nothing p (x ∷ gs) (h, hs) = rw (h, filter-nothing p gs hs)

pub select-nothing :
    (p : Grant → Bool) (s : Server) → All (λ x. p x ≡ false) s.grants → select p s ≡ nothing
unfolding scalar_one_or_none
select-nothing p s h = rw (filter-nothing p s.grants h)

scalar-nothing : (gs : List Grant) → scalar_one_or_none gs ≡ nothing → gs ≡ []
unfolding scalar_one_or_none
scalar-nothing [] h = refl
scalar-nothing (x ∷ []) h = cc
scalar-nothing (x ∷ y ∷ gs) h = cc

-- A commit that no row has the id of changes nothing.
store_absent : (g : Grant) (gs : List Grant) → filter (λ x. x.id == g.id) gs ≡ [] → store g gs ≡ gs
unfolding store
store_absent g [] h = refl
store_absent g (x ∷ gs) h = elim (Bool-cases (x.id == g.id)) [
  | inl same ↦ absurd (cc (rw same at h))
  | inr other ↦ rw other (ap (◌∷◌ x) (store_absent g gs (rw other at h)))
]

filter-store :
    (p : Grant → Bool) (g g' : Grant) (gs : List Grant)
    → filter (λ x. x.id == g'.id) gs ≡ g ∷ []
    → filter p gs ≡ []
    → p g' ≡ true
    → filter p (store g' gs) ≡ g' ∷ []
unfolding store
filter-store p g g' [] i n h = cc
filter-store p g g' (x ∷ gs) i n h = elim (Bool-cases (p x)) [
  | inl is ↦ absurd (cc (rw is at n))
  | inr isnt ↦
      let n' = rw isnt at n in
      elim (Bool-cases (x.id == g'.id)) [
        | inl same ↦ rw (same, store_absent g' gs (tail-eq_of_cons-eq (rw same at i)), h, n')
        | inr other ↦ rw (other, isnt) (filter-store p g g' gs (rw other at i) n' h)
      ]
]

-- If no row passed the test, then after a commit to a row of its own id the new row alone does.
pub select-store :
    (p : Grant → Bool) (g g' : Grant) (s : Server)
    → select (λ x. x.id == g'.id) s ≡ one g
    → select p s ≡ nothing
    → p g' ≡ true
    → select p (record s { grants = store g' s.grants }) ≡ one g'
unfolding scalar_one_or_none
select-store p g g' s i n h = rw (
    filter-store p g g' s.grants (scalar-one (filter (λ x. x.id == g'.id) s.grants) g i)
      (scalar-nothing (filter p s.grants) n) h)
