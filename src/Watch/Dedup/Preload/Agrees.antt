-- ===== src/Watch/Dedup/Preload/Agrees.antt =====
-- The preloaded check against the search in the table.
use mathlib.Core.Path.{subst}
use scrob.Prelude.{
  ℕ, ◌≡◌, refl, sym, ap, ◌∙◌, Bool, true, false, ◌&&◌, ◌||◌, Option, none, some, List, [], ◌∷◌,
  arith, filter, map, any, ltb, ◌==◌, nat_eq, pair_eq, contains, All, Bool-cases, Option-cases, inl,
  inr,
}
use scrob.Prelude.Clock.{Time, minutes}
use scrob.Prelude.Dict.{get, has_key, get-eq-none}
use scrob.Watch.{Media, WatchEvent, Db}
use scrob.Watch.Dedup.{
  effective_time, within, or_now, is_media, is_duplicate_of, first_by_id, earlier,
  find_duplicate_watch_event,
}
use scrob.Watch.Dedup.Preload.{
  Times, load_times, Position, is_sibling, Groups, group_siblings, shared_times,
  load_existing_watch_times, is_duplicate_watch_time,
}
use scrob.Watch.Dedup.Preload.Times.{
  has_time, load-has, groups-more, groups-share, AllShare, groups-bound,
}
use scrob.Watch.Dedup.Preload.Places.{AllAt, siblings-AllAt, siblings_placed, place-under}
use scrob.Watch.Dedup.Preload.SamePlace.{
  same_place, place, DistinctMedia, is_regular, siblings-place, same_place-eq, under,
}

-- The same media row, or a row of the same place.
abbrev related : List Media → ℕ → ℕ → Bool
related media m j = j == m || same_place (place media j) (place media m)

abbrev is_time_at : ℕ → (Time → Bool) → ℕ → WatchEvent → Bool
is_time_at user_id q j e = e.user_id == user_id && (e.media_id == j && q (effective_time e))

module _ (media : List Media) (user_id : ℕ) (q : Time → Bool) (events : List WatchEvent) where
  -- Whether the user has an event of a related row at such a time.
  abbrev has_event : ℕ → Bool
  has_event m =
      any (λ e. e.user_id == user_id && (related media m e.media_id && q (effective_time e))) events

  abbrev loaded : Times
  loaded = load_times user_id events []

  nothing_listed : (j : ℕ) → has_time q [] j ≡ false
  nothing_listed j = unfold get in refl

  loaded-has : (j : ℕ) → has_time q loaded j ≡ any (is_time_at user_id q j) events
  loaded-has j =
      load-has q user_id events [] j
      ∙ ap (λ b. b || any (is_time_at user_id q j) events) (nothing_listed j)

  loaded_key : (j : ℕ) → has_time q loaded j ≡ true → has_key loaded j ≡ true
  loaded_key j h = elim (Bool-cases (has_key loaded j)) [
    | inl t ↦ t
    | inr f ↦
        let e : get loaded j ≡ none = get-eq-none loaded j f in
        let z : has_time q loaded j ≡ false = rw e refl in cc
  ]

direct :
    (media : List Media) (user_id : ℕ) (q : Time → Bool) (events : List WatchEvent) (m : ℕ)
    → any (is_time_at user_id q m) events ≡ true
    → has_event media user_id q events m ≡ true
direct media user_id q [] m h = h
direct media user_id q (e ∷ events) m h = ground (arith, direct media user_id q events m)

related_moves :
    (media : List Media) (p : Position) (i m j : ℕ)
    → place media i ≡ some p
    → place media m ≡ some p
    → related media i j ≡ true
    → related media m j ≡ true
related_moves media p i m j a b h = elim (Bool-cases (j == i)) [
  | inl t ↦
      let e : place media j ≡ some p = ap (place media) (ground arith) ∙ a in
      let z : same_place (place media j) (place media m) ≡ true = rw e (rw b (ground arith)) in
      ground (arith, z)
  | inr f ↦
      let s : same_place (place media j) (place media i) ≡ true = (ground arith) in
      let s' : same_place (place media j) (place media m) ≡ true =
        subst (λ o. same_place (place media j) o ≡ true) (a ∙ sym b) s in
      ground (arith, s')
]

-- Members of one place have the same related rows.
share :
    (media : List Media) (user_id : ℕ) (q : Time → Bool) (events : List WatchEvent) (p : Position)
    (i m : ℕ)
    → place media i ≡ some p
    → place media m ≡ some p
    → has_event media user_id q events i ≡ true
    → has_event media user_id q events m ≡ true
share media user_id q [] p i m a b h = h
share media user_id q (e ∷ events) p i m a b h =
    let moved : related media i e.media_id ≡ true → related media m e.media_id ≡ true =
      related_moves media p i m e.media_id a b in
    ground (arith, moved, share media user_id q events p i m a b)

-- The row that an event of a related row has.
event_row :
    (media : List Media) (user_id : ℕ) (q : Time → Bool) (events : List WatchEvent) (m : ℕ)
    → has_event media user_id q events m ≡ true
    → (j : ℕ) × (related media m j ≡ true) × (any (is_time_at user_id q j) events ≡ true)
event_row media user_id q [] m h = absurd (ground arith)
event_row media user_id q (e ∷ events) m h =
    elim (Bool-cases
      (e.user_id == user_id && (related media m e.media_id && q (effective_time e)))) [
        | inl t ↦ (e.media_id, ground arith, ground arith)
        | inr f ↦
            (let (j, a, b) = event_row media user_id q events m (ground arith) in
              (j, a, ground (arith, b)))
      ]

at-AllShare :
    (media : List Media) (user_id : ℕ) (q : Time → Bool) (events : List WatchEvent)
    (groups : Groups)
    → AllAt media groups
    → AllShare q (has_event media user_id q events) groups
at-AllShare media user_id q events [] h = tt
at-AllShare media user_id q events ((p, ids) ∷ groups) (h, hs) = (
  λ i m a b. share media user_id q events p i m (h i a) (h m b),
  at-AllShare media user_id q events groups hs,
)

none_under : (p : Position) (m : ℕ) → contains (under [] p) m ≡ false
unfolding get contains
none_under p m = refl

-- The group of a position, once it has a member.
group_of :
    (groups : Groups) (p : Position) (m : ℕ)
    → contains (under groups p) m ≡ true
    → (ids : List ℕ) × (get groups p ≡ some ids)
group_of groups p m h = elim (Option-cases (get groups p)) [
  | inl n ↦ let z : contains [] m ≡ true = rw n at h in unfold contains in absurd (cc)
  | inr (ids, e) ↦ (ids, e)
]

either_way : (a b : Bool) → (a ≡ true → b ≡ true) → (b ≡ true → a ≡ true) → a ≡ b
either_way true b f g = sym (f refl)
either_way false true f g = g refl
either_way false false f g = refl

module _ (media : List Media) (user_id : ℕ) (q : Time → Bool) (events : List WatchEvent) (m : ℕ)
    (distinct : DistinctMedia media) where
  abbrev siblings : Groups
  siblings = group_siblings (filter (is_sibling media (loaded media user_id q events)) media) []

  shared-lower :
      has_event media user_id q events m ≡ true
      → has_time q (shared_times media (loaded media user_id q events)) m ≡ true
  shared-lower h =
      let (j, rel, there) = event_row media user_id q events m h in
      let timed : has_time q (loaded media user_id q events) j ≡ true =
        loaded-has media user_id q events j ∙ there in
      elim (Bool-cases (j == m)) [
        | inl t ↦ groups-more q siblings (loaded media user_id q events) m (
            subst (λ i. has_time q (loaded media user_id q events) i ≡ true)
              (let e : j ≡ m = ground arith in e) timed)
        | inr f ↦
            let same : same_place (place media j) (place media m) ≡ true = ground arith in
            let (p, a, b) = same_place-eq (place media j) (place media m) same in
            let known = loaded_key media user_id q events j timed in
            let in_m = place-under media (loaded media user_id q events) p j m a b known in
            let in_j = place-under media (loaded media user_id q events) p j j a a known in
            let (ids, e) = group_of siblings p m in_m in
            groups-share q siblings (loaded media user_id q events) p ids j m e (rw e at in_j)
              (rw e at in_m) timed
      ]

  shared-has :
      has_time q (shared_times media (loaded media user_id q events)) m
      ≡ has_event media user_id q events m
  shared-has =
      either_way (has_time q (shared_times media (loaded media user_id q events)) m)
        (has_event media user_id q events m)
        (groups-bound q (has_event media user_id q events) siblings (loaded media user_id q events)
          (at-AllShare media user_id q events siblings (
            siblings-AllAt media (filter (is_sibling media (loaded media user_id q events)) media)
              [] (siblings_placed media (loaded media user_id q events) distinct) tt))
          (λ i h. direct media user_id q events i (sym (loaded-has media user_id q events i) ∙ h))
          m)
        shared-lower

abbrev pub found : Option WatchEvent → Bool
found none = false
found (some e) = true

earlier-found : (e : WatchEvent) (r : Option WatchEvent) → found (earlier e r) ≡ true
earlier-found e none = refl
earlier-found e (some f) = elim (Bool-cases (ltb f.id e.id)) [
  | inl t ↦ rw t refl
  | inr n ↦ rw n refl
]

first-found :
    (p : WatchEvent → Bool) (events : List WatchEvent)
    → found (first_by_id (filter p events)) ≡ any p events
unfolding first_by_id
first-found p [] = refl
first-found p (e ∷ events) = elim (Bool-cases (p e)) [
  | inl t ↦ rw t (earlier-found e (first_by_id (filter p events)))
  | inr f ↦ rw f (first-found p events)
]

-- Every event taken for a completed one.
abbrev pub complete : WatchEvent → WatchEvent
complete e = record e { completed = true }

abbrev pub all_completed : Db → Db
all_completed db = record db { events = map complete db.events }

rows-agree :
    (media : List Media) (user_id media_id : ℕ) (at : Time) (window : ℕ) (events : List WatchEvent)
    → DistinctMedia media
    → All (λ s. is_regular s ≡ true) media
    → has_event media user_id (within (minutes window) at) events media_id
      ≡ any (is_duplicate_of media user_id media_id at window none) (map complete events)
unfolding is_duplicate_of
rows-agree media user_id media_id at window [] distinct regular = refl
rows-agree media user_id media_id at window (e ∷ events) distinct regular =
    let same : related media media_id e.media_id ≡ is_media media media_id e.media_id =
      ap (λ b. e.media_id == media_id || b)
        (sym (siblings-place media media_id e.media_id distinct regular)) in
    ground (arith, same, rows-agree media user_id media_id at window events distinct regular)

-- The preloaded check finds a duplicate just when the search in the table would, with no event
-- excluded, if every event counted as completed; provided that media rows have distinct ids, and
-- that only episodes have a show, a season and an episode number.
pub preload-agrees :
    (now : Time) (db : Db) (user_id media_id : ℕ) (candidate : Option Time) (window : ℕ)
    → DistinctMedia db.media
    → All (λ s. is_regular s ≡ true) db.media
    → is_duplicate_watch_time now (load_existing_watch_times db user_id) media_id candidate window
      ≡ found
          (find_duplicate_watch_event now (all_completed db) user_id media_id candidate window none)
unfolding is_duplicate_watch_time load_existing_watch_times find_duplicate_watch_event
preload-agrees now db user_id media_id candidate window distinct regular =
    elim (Bool-cases (window == 0)) [
      | inl off ↦ rw off refl
      | inr on ↦ rw on (
          shared-has db.media user_id (within (minutes window) (or_now candidate now)) db.events
            media_id distinct
          ∙ rows-agree db.media user_id media_id (or_now candidate now) window db.events distinct
              regular
          ∙ sym (
              first-found
                (is_duplicate_of db.media user_id media_id (or_now candidate now) window none)
                (map complete db.events)))
    ]
