-- ===== src/Heal/Groups.antt =====
-- The events of `heal_duplicate_history` grouped by what was watched, and what the sweep of every
-- group leaves.
use mathlib.Core.Path.{subst}
use scrob.Prelude.{
  ℕ, ◌+◌, ◌≤◌, ◌≡◌, refl, sym, ap, ◌∙◌, Bool, true, false, ◌&&◌, ◌||◌, List, [], ◌∷◌, ◌++◌, arith,
  any, if◌then◌else◌, ◌==◌, nat_eq, All, All-append, Bool-cases, inl, inr,
}
use scrob.Prelude.Dict.{Dict, get, put, get-put}
use scrob.Prelude.Sorting.{sort_by, sort-All, sort-any, sort-count}
use scrob.Watch.{Media, WatchEvent}
use scrob.Heal.{
  Identity, identity_of, append_to, identity_eq, identity_beq, identity_beq_iff, or_nil, earlier,
  by_identity, sweep_groups, sweep,
}
use scrob.Heal.Clusters.{
  count_id, count, count-append, count_id-append, any-append, survive, sweep-count,
  survive-completed, survive-All,
}

abbrev pub Groups : Type 0
Groups = Dict Identity (List WatchEvent)

abbrev pub group : Groups → Identity → List WatchEvent
group d k = or_nil (get d k)

unfoldable pub total : ℕ → Groups → ℕ
total i [] = 0
total i ((k, events) ∷ d) = count_id i events + total i d

group-cons :
    (j : Identity) (events : List WatchEvent) (d : Groups) (k : Identity)
    → group ((j, events) ∷ d) k ≡ (if j == k then events else group d k)
unfolding get
group-cons j events d k = elim (Bool-cases (j == k)) [
  | inl t ↦ rw (t, get) refl
  | inr f ↦ rw (f, get) refl
]

append_to-same :
    (k : Identity) (e : WatchEvent) (j : Identity) (events : List WatchEvent) (d : Groups)
    → (j == k) ≡ true
    → append_to k e ((j, events) ∷ d) ≡ (j, events ++ e ∷ []) ∷ d
unfolding append_to put
append_to-same k e j events d t =
    let g : group ((j, events) ∷ d) k ≡ events = rw (group-cons j events d k) (rw t refl) in
    rw g (rw (t, put) refl)

append_to-other :
    (k : Identity) (e : WatchEvent) (j : Identity) (events : List WatchEvent) (d : Groups)
    → (j == k) ≡ false
    → append_to k e ((j, events) ∷ d) ≡ (j, events) ∷ append_to k e d
unfolding append_to put
append_to-other k e j events d f =
    let g : group ((j, events) ∷ d) k ≡ group d k = rw (group-cons j events d k) (rw f refl) in
    let stored = group d k ++ e ∷ [] in
    let there : put k stored ((j, events) ∷ d) ≡ (j, events) ∷ put k stored d = rw (f, put) refl in
    ap (λ es. put k (es ++ e ∷ []) ((j, events) ∷ d)) g ∙ there

total-append_to :
    (i : ℕ) (k : Identity) (e : WatchEvent) (d : Groups)
    → total i (append_to k e d) ≡ total i d + count_id i (e ∷ [])
unfolding total
total-append_to i k e [] = unfold append_to put get in ground arith
total-append_to i k e ((j, events) ∷ d) = elim (Bool-cases (j == k)) [
  | inl t ↦ rw (append_to-same k e j events d t) (omega (arith, count_id-append i events (e ∷ [])))
  | inr f ↦ rw (append_to-other k e j events d f) (omega (arith, total-append_to i k e d))
]

-- What holds of every event of every group.
abbrev pub AllGroups : (WatchEvent → Type 0) → Groups → Type 0
AllGroups P [] = Unit
AllGroups P ((k, events) ∷ d) = All P events × AllGroups P d

AllGroups-append_to :
    (P : WatchEvent → Type 0) (k : Identity) (e : WatchEvent) (d : Groups)
    → P e
    → AllGroups P d
    → AllGroups P (append_to k e d)
AllGroups-append_to P k e [] p h = unfold append_to put get in ((p, tt), tt)
AllGroups-append_to P k e ((j, events) ∷ d) p (h, hs) = elim (Bool-cases (j == k)) [
  | inl t ↦ rw (append_to-same k e j events d t) (All-append P events (e ∷ []) h (p, tt), hs)
  | inr f ↦ rw (append_to-other k e j events d f) (h, AllGroups-append_to P k e d p hs)
]

pub AllGroups-group :
    (P : WatchEvent → Type 0) (d : Groups) (k : Identity) → AllGroups P d → All P (group d k)
AllGroups-group P [] k h = unfold get in tt
AllGroups-group P ((j, events) ∷ d) k (h, hs) =
    rw (group-cons j events d k)
      (elim (Bool-cases (j == k)) [ inl t ↦ rw t h | inr f ↦ rw f (AllGroups-group P d k hs) ])

pub group-nil : (k : Identity) → group [] k ≡ []
unfolding get
group-nil k = refl

module _ (media : List Media) where
  abbrev pub identity : WatchEvent → Identity
  identity e = identity_of media e.media_id

  pub total-by_identity :
      (i : ℕ) (events : List WatchEvent) (d : Groups)
      → total i (by_identity media events d) ≡ total i d + count_id i events
  unfolding by_identity
  total-by_identity i [] d = omega arith
  total-by_identity i (e ∷ events) d = ground (
    arith,
    total-by_identity i events (append_to (identity e) e d),
    total-append_to i (identity e) e d,
  )

  pub AllGroups-by_identity :
      (P : WatchEvent → Type 0) (events : List WatchEvent) (d : Groups)
      → All P events
      → AllGroups P d
      → AllGroups P (by_identity media events d)
  unfolding by_identity
  AllGroups-by_identity P [] d h k = k
  AllGroups-by_identity P (e ∷ events) d (h, hs) k =
      AllGroups-by_identity P events (append_to (identity e) e d) hs
        (AllGroups-append_to P (identity e) e d h k)

  group-append_to :
      (e : WatchEvent) (d : Groups) (k : Identity)
      → group (append_to (identity e) e d) k
        ≡ (if identity e == k then group d k ++ e ∷ [] else group d k)
  group-append_to e d k = elim (Bool-cases (identity_beq (identity e) k)) [
    | inl t ↦
        let s : identity e ≡ k = (identity_beq_iff (identity e) k).0 t in
        unfold append_to in
        ground (arith, ap (group d) s, get-put (identity e) (group d (identity e) ++ e ∷ []) d k)
    | inr f ↦
        unfold append_to in
        rw (get-put (identity e) (group d (identity e) ++ e ∷ []) d k) (rw f refl)
  ]

  pub any-group :
      (p : WatchEvent → Bool) (k : Identity) (events : List WatchEvent) (d : Groups)
      → any p (group (by_identity media events d) k)
        ≡ (any p (group d k) || any (λ e. identity e == k && p e) events)
  unfolding by_identity
  any-group p k [] d = ground arith
  any-group p k (e ∷ events) d = elim (Bool-cases (identity e == k)) [
    | inl t ↦
        rw (any-group p k events (append_to (identity e) e d))
          (rw (group-append_to e d k) (rw t (ground (arith, any-append p (group d k) (e ∷ [])))))
    | inr f ↦
        rw (any-group p k events (append_to (identity e) e d))
          (rw (group-append_to e d k) (rw f (ground arith)))
  ]

  -- The group of k holds events of k only.
  pub group-All :
      (k : Identity) (events : List WatchEvent) (d : Groups)
      → All (λ e. identity e ≡ k) (group d k)
      → All (λ e. identity e ≡ k) (group (by_identity media events d) k)
  unfolding by_identity
  group-All k [] d h = h
  group-All k (e ∷ events) d h = group-All k events (append_to (identity e) e d) (
      subst (All (λ e. identity e ≡ k)) (sym (group-append_to e d k))
        (elim (Bool-cases (identity_beq (identity e) k)) [
          | inl t ↦ rw t (
              All-append (λ e. identity e ≡ k) (group d k) (e ∷ []) h
                ((identity_beq_iff (identity e) k).0 t, tt))
          | inr f ↦ rw f h
        ]))

module _ (tolerance : ℕ) where
  abbrev pub survivors : List WatchEvent → List WatchEvent
  survivors events = survive tolerance [] (sort_by earlier events)

  unfoldable pub survive_groups : Groups → List WatchEvent
  survive_groups [] = []
  survive_groups ((k, events) ∷ d) = survivors events ++ survive_groups d

  pub sweep_groups-count :
      (i : ℕ) (d : Groups)
      → count i (sweep_groups tolerance d) + count_id i (survive_groups d) ≤ total i d
  unfolding sweep_groups survive_groups total
  sweep_groups-count i [] = omega arith
  sweep_groups-count i ((k, events) ∷ d) = omega (
    arith,
    count-append i (sweep tolerance [] (sort_by earlier events)) (sweep_groups tolerance d),
    count_id-append i (survivors events) (survive_groups d),
    sweep-count tolerance i [] (sort_by earlier events),
    sort-count earlier (λ e. e.id == i) events,
    sweep_groups-count i d,
  )

  pub survive_groups-All :
      (P : WatchEvent → Type 0) (d : Groups) → AllGroups P d → All P (survive_groups d)
  unfolding survive_groups
  survive_groups-All P [] h = tt
  survive_groups-All P ((k, events) ∷ d) (h, hs) =
      All-append P (survivors events) (survive_groups d)
        (survive-All tolerance P [] (sort_by earlier events) tt (sort-All earlier P events h))
        (survive_groups-All P d hs)

  pub survivors-any :
      (p : WatchEvent → Bool) (k : Identity) (d : Groups)
      → any p (survivors (group d k)) ≡ true
      → any p (survive_groups d) ≡ true
  unfolding survive_groups
  survivors-any p k [] h = unfold survive sort_by get in ground arith
  survivors-any p k ((j, events) ∷ d) h =
      let s : any p (survivors (if j == k then events else group d k)) ≡ true =
        subst (λ es. any p (survivors es) ≡ true) (group-cons j events d k) h in
      rw (any-append p (survivors events) (survive_groups d)) (elim (Bool-cases (j == k)) [
        | inl t ↦
            let s' : any p (survivors events) ≡ true =
              subst (λ b. any p (survivors (if b then events else group d k)) ≡ true) t s in
            rw s' refl
        | inr f ↦
            let s' : any p (survivors (group d k)) ≡ true =
              subst (λ b. any p (survivors (if b then events else group d k)) ≡ true) f s in
            ground (arith, survivors-any p k d s')
      ])

  -- A group with a completed play keeps one.
  pub survivors-completed :
      (events : List WatchEvent)
      → any (λ e. e.completed) events ≡ true
      → any (λ e. e.completed) (survivors events) ≡ true
  survivors-completed events h =
      survive-completed tolerance [] (sort_by earlier events)
        (rw (sort-any earlier (λ e. e.completed) events) h)
