-- ===== src/Heal/Watched.antt =====
-- `heal_duplicate_history` keeps a completed play of all that was watched.
use mathlib.Core.Path.{subst}
use scrob.Prelude.{
  ℕ, ◌+◌, ◌≤◌, ◌≡◌, refl, sym, ◌∙◌, Bool, true, false, not, ◌&&◌, List, [], ◌∷◌, arith, filter, any,
  ltb, ◌==◌, nat_eq, contains, All, All-filter, filter-All, Bool-cases, inl, inr, length-filter-le,
}
use scrob.Prelude.Clock.{minutes}
use scrob.Prelude.Sorting.{sort_by, sort-All, sort-any, sort-count}
use scrob.Watch.{Media, WatchEvent, Db}
use scrob.Heal.{
  Identity, identity_of, identity_eq, identity_beq_iff, earlier, media_order, by_identity,
  sweep_groups, duplicates, heal_duplicate_history,
}
use scrob.Heal.Clusters.{count_id, count, survive-All}
use scrob.Heal.Groups.{
  Groups, group, total, AllGroups-group, group-nil, total-by_identity, AllGroups-by_identity,
  any-group, group-All, survivors, survive_groups, sweep_groups-count, survive_groups-All,
  survivors-any, survivors-completed,
}
use scrob.Heal.Leftover.{
  Covers, UniqueIds, all_false, any-filter, any-none, count_id-parts, has_watched, remaining-any,
}

module _ (media : List Media) (tolerance user_id : ℕ) (events : List WatchEvent) where
  abbrev own : List WatchEvent
  own = sort_by media_order (filter (λ e. e.user_id == user_id) events)

  abbrev pub groups : Groups
  groups = by_identity media own []

  swept-count :
      (i : ℕ)
      → count i (sweep_groups tolerance groups) + count_id i (survive_groups tolerance groups)
        ≤ count_id i (filter (λ e. e.user_id == user_id) events)
  unfolding total
  swept-count i = omega (
    arith,
    sweep_groups-count tolerance i groups,
    total-by_identity media i own [],
    sort-count media_order (λ e. e.id == i) (filter (λ e. e.user_id == user_id) events),
  )

  own-Covers : Covers events (survive_groups tolerance groups)
  own-Covers p h = all_false p (survive_groups tolerance groups) (
      survive_groups-All tolerance (λ e. p e ≡ false) groups
        (AllGroups-by_identity media (λ e. p e ≡ false) own []
          (sort-All media_order (λ e. p e ≡ false) (filter (λ e. e.user_id == user_id) events)
            (All-filter (λ e. p e ≡ false) (λ e. e.user_id == user_id) events
              (any-none p events h)))
          tt))

  others-Covers : Covers events (filter (λ e. not (e.user_id == user_id)) events)
  others-Covers p h =
      all_false p (filter (λ e. not (e.user_id == user_id)) events) (
        All-filter (λ e. p e ≡ false) (λ e. not (e.user_id == user_id)) events
          (any-none p events h))

  -- The other users' rows.
  others-keep :
      (r : WatchEvent → Bool)
      → UniqueIds events
      → any (λ e. not (e.user_id == user_id) && r e) events ≡ true
      → any r (filter (λ e. not (contains (sweep_groups tolerance groups) e.id)) events) ≡ true
  others-keep r unique h =
      remaining-any r (sweep_groups tolerance groups) events
        (filter (λ e. not (e.user_id == user_id)) events) others-Covers
        (λ i.
          omega
            (arith, swept-count i, count_id-parts i (λ e. e.user_id == user_id) events, unique i))
        (rw (any-filter (λ e. not (e.user_id == user_id)) r events) h)

  survivor_watched :
      (k : Identity) (rest : List WatchEvent)
      → any (λ e. e.completed) rest ≡ true
      → All (λ e. identity_of media e.media_id ≡ k) rest
      → All (λ e. (e.user_id == user_id) ≡ true) rest
      → has_watched media user_id k rest ≡ true
  survivor_watched k [] h a b = h
  survivor_watched k (e ∷ rest) h (a, as') (b, bs) =
      let same : (identity_of media e.media_id == k) ≡ true =
        (identity_beq_iff (identity_of media e.media_id) k).1 a in
      ground (arith, same, survivor_watched k rest)

  group_completed :
      (k : Identity)
      → has_watched media user_id k events ≡ true
      → any (λ e. e.completed) (group groups k) ≡ true
  group_completed k h = rw (any-group media (λ e. e.completed) k own []) (
      rw (group-nil k) (
        rw
          (sort-any media_order (λ e. identity_of media e.media_id == k && e.completed)
            (filter (λ e. e.user_id == user_id) events))
          (rw
            (any-filter (λ e. e.user_id == user_id)
              (λ e. identity_of media e.media_id == k && e.completed) events)
            h)))

  group_watched :
      (k : Identity)
      → has_watched media user_id k events ≡ true
      → has_watched media user_id k (survivors tolerance (group groups k)) ≡ true
  group_watched k h =
      let mine : WatchEvent → Type 0 = λ e. (e.user_id == user_id) ≡ true in
      survivor_watched k (survivors tolerance (group groups k))
        (survivors-completed tolerance (group groups k) (group_completed k h))
        (survive-All tolerance (λ e. identity_of media e.media_id ≡ k) []
          (sort_by earlier (group groups k)) tt
          (sort-All earlier (λ e. identity_of media e.media_id ≡ k) (group groups k)
            (group-All media k own [] (rw (group-nil k) tt))))
        (survive-All tolerance mine [] (sort_by earlier (group groups k)) tt (
          sort-All earlier mine (group groups k) (
            AllGroups-group mine groups k (
              AllGroups-by_identity media mine own []
                (sort-All media_order mine (filter (λ e. e.user_id == user_id) events)
                  (filter-All (λ e. e.user_id == user_id) events))
                tt))))

  -- The user's own completed plays.
  own-keep :
      (k : Identity)
      → UniqueIds events
      → has_watched media user_id k events ≡ true
      → has_watched media user_id k
          (filter (λ e. not (contains (sweep_groups tolerance groups) e.id)) events)
        ≡ true
  own-keep k unique h =
      remaining-any
        (λ e. e.user_id == user_id && (identity_of media e.media_id == k && e.completed))
        (sweep_groups tolerance groups) events (survive_groups tolerance groups) own-Covers
        (λ i. omega (
          arith,
          swept-count i,
          length-filter-le (λ e. e.id == i) events,
          count_id-parts i (λ e. e.user_id == user_id) events,
          unique i,
        ))
        (survivors-any tolerance
          (λ e. e.user_id == user_id && (identity_of media e.media_id == k && e.completed)) k groups
          (group_watched k h))

others_watched :
    (media : List Media) (user_id v : ℕ) (k : Identity) (events : List WatchEvent)
    → (v == user_id) ≡ false
    → has_watched media v k events ≡ true
    → any
        (λ e.
          not (e.user_id == user_id)
          && (e.user_id == v && (identity_of media e.media_id == k && e.completed)))
        events
      ≡ true
others_watched media user_id v k [] other h = h
others_watched media user_id v k (e ∷ events) other h =
    ground (arith, others_watched media user_id v k events other)

swept-watched :
    (media : List Media) (tolerance user_id : ℕ) (events : List WatchEvent) (v : ℕ) (k : Identity)
    → UniqueIds events
    → has_watched media v k events ≡ true
    → has_watched media v k (
        filter
          (λ e.
            not (contains (sweep_groups tolerance (groups media tolerance user_id events)) e.id))
          events)
      ≡ true
swept-watched media tolerance user_id events v k unique h = elim (Bool-cases (v == user_id)) [
  | inl same ↦
      let s : v ≡ user_id = ground arith in
      subst
        (λ u.
          has_watched media u k (
            filter
              (λ e.
                not
                  (contains (sweep_groups tolerance (groups media tolerance user_id events)) e.id))
              events)
          ≡ true)
        (sym s)
        (own-keep media tolerance user_id events k unique
          (subst (λ u. has_watched media u k events ≡ true) s h))
  | inr other ↦
      others-keep media tolerance user_id events
        (λ e. e.user_id == v && (identity_of media e.media_id == k && e.completed)) unique
        (others_watched media user_id v k events other h)
]

-- Collapsing the duplicates of a user's history makes nothing unwatched: whoever had a completed
-- play of an episode (by show, season and number), or of a media row that is not known as one, has
-- one afterwards, and no one gains one, provided that the ids of the events are distinct. Of several
-- rows of one episode it may be another that keeps the play.
pub heal-keeps_watched :
    (window user_id : ℕ) (db : Db)
    → UniqueIds db.events
    → (v : ℕ) (k : Identity)
    → has_watched db.media v k (heal_duplicate_history window user_id db).0.events
      ≡ has_watched db.media v k db.events
unfolding heal_duplicate_history duplicates
heal-keeps_watched window user_id db unique v k = elim (Bool-cases (ltb window 1)) [
  | inl bad ↦ rw bad refl
  | inr good ↦ rw good (elim (Bool-cases (has_watched db.media v k db.events)) [
    | inl t ↦ swept-watched db.media (minutes window) user_id db.events v k unique t ∙ sym t
    | inr f ↦
        let unwatched : WatchEvent → Type 0 =
          λ e. (e.user_id == v && (identity_of db.media e.media_id == k && e.completed)) ≡ false in
        let left = filter (λ e. not (contains (duplicates window user_id db) e.id)) db.events in
        all_false (λ e. e.user_id == v && (identity_of db.media e.media_id == k && e.completed))
          left
          (All-filter unwatched (λ e. not (contains (duplicates window user_id db) e.id)) db.events
            (any-none (λ e. e.user_id == v && (identity_of db.media e.media_id == k && e.completed))
              db.events f))
        ∙ sym f
  ])
]
