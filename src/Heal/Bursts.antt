-- ===== src/Heal/Bursts.antt =====
-- `heal_push_echo_duplicates` leaves the first record of everything.
use mathlib.Core.Path.{subst}
use scrob.Prelude.{
  ℕ, ◌≤◌, ◌≡◌, refl, sym, ap, ◌∙◌, Bool, true, false, not, ◌&&◌, ◌||◌, Option, none, some, List, [],
  ◌∷◌, ◌++◌, arith, filter, map, any, length, leb, ◌==◌, nat_eq, contains, contains-append,
  Bool-cases, Option-cases, inl, inr,
}
use scrob.Prelude.Clock.{Time}
use scrob.Prelude.Sorting.{sort_by, sort-any}
use scrob.Watch.{WatchEvent, Db}
use scrob.Watch.Dedup.{effective_time}
use scrob.Heal.{
  earlier, is_pushed, is_of, earliest_id, is_id, flush_burst, is_later, burst_echoes, push_echoes,
  heal_push_echo_duplicates,
}
use scrob.Heal.Clusters.{count_id, any-append}
use scrob.Heal.Leftover.{UniqueIds, any-filter}

module _ (earliest : ℕ → Option ℕ) (i : ℕ) where
  abbrev is_extra : WatchEvent → Bool
  is_extra r = r.id == i && not (is_id (earliest r.media_id) r.id)

  ids-any :
      (burst : List WatchEvent)
      → contains (map (λ r. r.id) (filter (λ r. not (is_id (earliest r.media_id) r.id)) burst)) i
        ≡ true
      → any is_extra burst ≡ true
  unfolding contains
  ids-any [] h = h
  ids-any (r ∷ burst) h = ground (arith, ids-any burst)

  flush-any :
      (burst : List WatchEvent)
      → contains (flush_burst earliest burst) i ≡ true
      → any is_extra burst ≡ true
  unfolding flush_burst
  flush-any burst h = elim (Bool-cases (leb 5 (length burst))) [
    | inl t ↦ ids-any burst (rw t at h)
    | inr f ↦ let z : false ≡ true = unfold contains in (rw f at h) in cc
  ]

  echoes-any :
      (prev_at : Option Time) (burst rows : List WatchEvent)
      → contains (burst_echoes earliest prev_at burst rows) i ≡ true
      → (any is_extra burst || any is_extra rows) ≡ true
  unfolding burst_echoes
  echoes-any prev_at burst [] h = ground (arith, flush-any burst)
  echoes-any prev_at burst (r ∷ rows) h = elim (Bool-cases (is_later earliest prev_at r)) [
    | inl t ↦
        let s : contains
              (flush_burst earliest burst
                ++ burst_echoes earliest (some (effective_time r)) (r ∷ []) rows)
              i
            ≡ true =
          (let step : burst_echoes earliest prev_at burst (r ∷ rows)
                ≡ flush_burst earliest burst
                  ++ burst_echoes earliest (some (effective_time r)) (r ∷ []) rows =
              rw (t, burst_echoes) refl in
            rw step at h) in
        ground (
          arith,
          contains-append (flush_burst earliest burst)
              (burst_echoes earliest (some (effective_time r)) (r ∷ []) rows) i,
          flush-any burst,
          echoes-any (some (effective_time r)) (r ∷ []) rows,
        )
    | inr f ↦
        let s : contains (burst_echoes earliest (some (effective_time r)) (burst ++ r ∷ []) rows) i
            ≡ true =
          (let step : burst_echoes earliest prev_at burst (r ∷ rows)
                ≡ burst_echoes earliest (some (effective_time r)) (burst ++ r ∷ []) rows =
              rw (f, burst_echoes) refl in
            rw step at h) in
        ground (
          arith,
          echoes-any (some (effective_time r)) (burst ++ r ∷ []) rows s,
          any-append is_extra burst (r ∷ []),
        )
  ]

-- Two rows of one id, told apart by a test.
one-count :
    (i : ℕ) (c : WatchEvent → Bool) (events : List WatchEvent)
    → any (λ e. e.id == i && c e) events ≡ true
    → 1 ≤ count_id i events
one-count i c [] h = ground arith
one-count i c (e ∷ events) h = ground (arith, one-count i c events)

two-count :
    (i : ℕ) (c : WatchEvent → Bool) (events : List WatchEvent)
    → any (λ e. e.id == i && c e) events ≡ true
    → any (λ e. e.id == i && not (c e)) events ≡ true
    → 2 ≤ count_id i events
two-count i c [] g h = ground arith
two-count i c (e ∷ events) g h =
    ground (arith, two-count i c events, one-count i c events, one-count i (λ x. not (c x)) events)

-- `earliest_id` is the least id.
module _ (u m : ℕ) where
  earliest-any :
      (i : ℕ) (events : List WatchEvent)
      → earliest_id u m events ≡ some i
      → any (λ e. e.id == i && is_of u m e) events ≡ true
  unfolding earliest_id
  earliest-any i [] h = ground arith
  earliest-any i (e ∷ events) h = elim (Option-cases (earliest_id u m events)) [
    | inl n ↦ ground (arith)
    | inr (j, s) ↦ ground (arith, earliest-any j events s)
  ]

  earliest-none :
      (j : ℕ) (events : List WatchEvent)
      → earliest_id u m events ≡ none
      → any (λ e. e.id == j && is_of u m e) events ≡ false
  unfolding earliest_id
  earliest-none j [] h = refl
  earliest-none j (e ∷ events) h = elim (Option-cases (earliest_id u m events)) [
    | inl n ↦ ground (arith, earliest-none j events n)
    | inr (i, s) ↦ ground arith
  ]

  earliest-le :
      (i j : ℕ) (events : List WatchEvent)
      → earliest_id u m events ≡ some i
      → any (λ e. e.id == j && is_of u m e) events ≡ true
      → i ≤ j
  unfolding earliest_id
  earliest-le i j [] h k = ground arith
  earliest-le i j (e ∷ events) h k = elim (Option-cases (earliest_id u m events)) [
    | inl n ↦ ground (arith, earliest-none j events n)
    | inr (l, s) ↦ ground (arith, earliest-le l j events s)
  ]

  filter_member :
      (p : WatchEvent → Bool) (j : ℕ) (events : List WatchEvent)
      → any (λ e. e.id == j && is_of u m e) (filter p events) ≡ true
      → any (λ e. e.id == j && is_of u m e) events ≡ true
  filter_member p j [] h = h
  filter_member p j (e ∷ events) h = ground (arith, filter_member p j events)

  earliest-filter-none :
      (p : WatchEvent → Bool) (events : List WatchEvent)
      → earliest_id u m events ≡ none
      → earliest_id u m (filter p events) ≡ none
  earliest-filter-none p events h = elim (Option-cases (earliest_id u m (filter p events))) [
    | inl n ↦ n
    | inr (j, s) ↦
        let a : any (λ e. e.id == j && is_of u m e) events ≡ true =
          filter_member p j events (earliest-any j (filter p events) s) in
        let b : any (λ e. e.id == j && is_of u m e) events ≡ false = earliest-none j events h in cc
  ]

  -- An earliest row that passes a test is the earliest of those that pass.
  earliest-filter :
      (p : WatchEvent → Bool) (i : ℕ) (events : List WatchEvent)
      → earliest_id u m events ≡ some i
      → any (λ e. e.id == i && is_of u m e) (filter p events) ≡ true
      → earliest_id u m (filter p events) ≡ some i
  earliest-filter p i events h k = elim (Option-cases (earliest_id u m (filter p events))) [
    | inl n ↦
        let z : any (λ e. e.id == i && is_of u m e) (filter p events) ≡ false =
          earliest-none i (filter p events) n in
        cc
    | inr (j, s) ↦
        let le : j ≤ i = earliest-le j i (filter p events) s k in
        let ge : i ≤ j =
          earliest-le i j events h
            (filter_member p j events (earliest-any j (filter p events) s)) in
        let e : j ≡ i = omega arith in s ∙ ap some e
  ]

-- An id of a row that is kept.
kept-any :
    (ids : List ℕ) (i : ℕ) (r : WatchEvent → Bool) (events : List WatchEvent)
    → contains ids i ≡ false
    → any (λ e. e.id == i && r e) events ≡ true
    → any (λ e. e.id == i && r e) (filter (λ e. not (contains ids e.id)) events) ≡ true
kept-any ids i r [] free h = h
kept-any ids i r (e ∷ events) free h = elim (Bool-cases (e.id == i)) [
  | inl same ↦
      let s : e.id ≡ i = ground arith in
      let f : contains ids e.id ≡ false = subst (λ j. contains ids j ≡ false) (sym s) free in
      rw f (ground (arith, kept-any ids i r events free))
  | inr other ↦ elim (Bool-cases (contains ids e.id)) [
    | inl t ↦ rw t (kept-any ids i r events free (ground arith))
    | inr f ↦ rw f (ground (arith, kept-any ids i r events free))
  ]
]

module _ (user_id : ℕ) (db : Db) where
  abbrev firsts : ℕ → Option ℕ
  firsts media_id = earliest_id user_id media_id db.events

  -- What is deleted is a row of the user that is not the first of its media.
  echo-any :
      (i : ℕ)
      → contains (push_echoes user_id db) i ≡ true
      → any (λ e. is_pushed user_id e && is_extra firsts i e) db.events ≡ true
  unfolding push_echoes
  echo-any i h =
      let rows = filter (is_pushed user_id) db.events in
      let a : any (is_extra firsts i) (sort_by earlier rows) ≡ true =
        echoes-any firsts i none [] (sort_by earlier rows) h in
      sym (any-filter (is_pushed user_id) (is_extra firsts i) db.events)
      ∙ sym (sort-any earlier (is_extra firsts i) rows)
      ∙ a

  elsewhere :
      (v m i : ℕ)
      → earliest_id v m db.events ≡ some i
      → (events : List WatchEvent)
      → any (λ e. is_pushed user_id e && is_extra firsts i e) events ≡ true
      → any (λ e. e.id == i && not (is_of v m e)) events ≡ true
  elsewhere v m i h [] k = k
  elsewhere v m i h (e ∷ events) k = elim (Bool-cases (is_of v m e)) [
    | inl t ↦
        let u : e.user_id ≡ v = ground arith in
        let w : e.media_id ≡ m = ground arith in
        let first : earliest_id e.user_id e.media_id db.events ≡ some i = rw u (rw w h) in
        ground (arith, elsewhere v m i h events)
    | inr f ↦ ground (arith, elsewhere v m i h events)
  ]

  first-kept :
      (v m i : ℕ)
      → UniqueIds db.events
      → earliest_id v m db.events ≡ some i
      → contains (push_echoes user_id db) i ≡ false
  first-kept v m i unique h = elim (Bool-cases (contains (push_echoes user_id db) i)) [
    | inr f ↦ f
    | inl t ↦
        let a : any (λ e. e.id == i && is_of v m e) db.events ≡ true =
          earliest-any v m i db.events h in
        let b : any (λ e. e.id == i && not (is_of v m e)) db.events ≡ true =
          elsewhere v m i h db.events (echo-any i t) in
        let z : 2 ≤ count_id i db.events = two-count i (is_of v m) db.events a b in
        ground (arith, unique i)
  ]

-- Removing push echoes never removes the first record of anything: for every user and every media
-- the least id among the user's events of it is the same afterwards, provided that the ids of the
-- events are distinct.
pub heal_push_echo-keeps_first :
    (user_id : ℕ) (db : Db)
    → UniqueIds db.events
    → (v m : ℕ)
    → earliest_id v m (heal_push_echo_duplicates user_id db).0.events ≡ earliest_id v m db.events
unfolding heal_push_echo_duplicates
heal_push_echo-keeps_first user_id db unique v m =
    let left = λ (e : WatchEvent). not (contains (push_echoes user_id db) e.id) in
    elim (Option-cases (earliest_id v m db.events)) [
      | inl n ↦ earliest-filter-none v m left db.events n ∙ sym n
      | inr (i, s) ↦
          earliest-filter v m left i db.events s (
            kept-any (push_echoes user_id db) i (is_of v m) db.events
              (first-kept user_id db v m i unique s) (earliest-any v m i db.events s))
          ∙ sym s
    ]
