-- ===== src/Watch/Webhook/Plays.antt =====
-- What the writing of a completed play leaves in the history.
use mathlib.Core.Path.{subst}
use scrob.Prelude.{
  ℕ, ◌+◌, ◌≤◌, String, ◌≡◌, ◌≢◌, refl, Bool, true, false, Option, none, some, List, [], ◌∷◌, ◌++◌,
  arith, any, nat_eq, Option-cases, inl, inr, ◌⊎◌, All,
}
use scrob.Prelude.Clock.{minutes}
use scrob.Watch.{Media, WatchEvent, ShowRewatch, RewatchProgress, Db}
use scrob.Watch.Dedup.{find_duplicate_watch_event, is_duplicate_of}
use scrob.Watch.Dedup.Search.{Finds, Occurs, find_duplicate-Finds}
use scrob.Watch.Rewatch.{
  record_rewatch_progress, insert_progress, maybe_complete_rewatch, episode_show,
  get_active_rewatch,
}
use scrob.Watch.Rewatch.Cycle.{maybe-cases}
use scrob.Watch.Webhook.{Play, new_event, insert_event, write_play}

insert-history :
    (p : RewatchProgress) (db : Db)
    → ((insert_progress p db).events ≡ db.events) × ((insert_progress p db).media ≡ db.media)
unfolding insert_progress
insert-history p db = ground arith

maybe-history :
    (today : String) (r : ShowRewatch) (db : Db)
    → ((maybe_complete_rewatch today r db).events ≡ db.events)
      × ((maybe_complete_rewatch today r db).media ≡ db.media)
maybe-history today r db = elim (maybe-cases today r db) [
  | inl e ↦ rw e (refl, refl)
  | inr (e, all) ↦ rw e (refl, refl)
]

-- The rewatch's progress is no part of the history.
record-history :
    (today : String) (u m id : ℕ) (db : Db)
    → ((record_rewatch_progress today u m id db).events ≡ db.events)
      × ((record_rewatch_progress today u m id db).media ≡ db.media)
unfolding record_rewatch_progress
record-history today u m id db = elim (Option-cases (episode_show db m)) [
  | inl e ↦ rw (e, record_rewatch_progress) (refl, refl)
  | inr (sh, e) ↦
      rw (e, record_rewatch_progress)
        (elim (Option-cases (get_active_rewatch db u sh)) [
          | inl f ↦ rw f (refl, refl)
          | inr (r, f) ↦ rw f (
              ground (
                arith,
                maybe-history today r (
                    insert_progress
                      (record { rewatch_id = r.id; media_id = m; watch_event_id = id }) db),
                insert-history (record { rewatch_id = r.id; media_id = m; watch_event_id = id }) db,
              ))
        ])
]

abbrev pub dup : Play → Db → Option WatchEvent
dup p db = find_duplicate_watch_event p.now db p.user_id p.media_id (some p.now) p.window none

-- A play that is already there changes nothing; any other is one more event.
pub write-events :
    (p : Play) (db : Db)
    → ((dup p db ≡ none)
        × ((write_play p db).events ≡ db.events ++ new_event p db.next_event ∷ [])
        × ((write_play p db).media ≡ db.media))
      ⊎ ((dup p db ≢ none) × (write_play p db ≡ db))
unfolding write_play
write-events p db = elim (Option-cases (dup p db)) [
  | inl e ↦ inl (
    e,
    rw (e, write_play)
        (record-history p.today p.user_id p.media_id db.next_event (insert_event p db)).0,
    rw (e, write_play)
        (record-history p.today p.user_id p.media_id db.next_event (insert_event p db)).1,
  )
  | inr (x, e) ↦ inr (rw e (ground arith), rw (e, write_play))
]

any-last :
    (f : WatchEvent → Bool) (es : List WatchEvent) (e : WatchEvent)
    → f e ≡ true
    → any f (es ++ e ∷ []) ≡ true
any-last f [] e h = ground arith
any-last f (x ∷ es) e h = ground (arith, any-last f es e)

any-Occurs :
    (f : WatchEvent → Bool) (e : WatchEvent) (es : List WatchEvent)
    → f e ≡ true
    → Occurs e es
    → any f es ≡ true
any-Occurs f e [] h o = absurd o
any-Occurs f e (x ∷ es) h (inl q) = ground (arith, q)
any-Occurs f e (x ∷ es) h (inr o) = ground (arith, any-Occurs f e es h o)

none-any :
    (f : WatchEvent → Bool) (es : List WatchEvent) → All (λ e. f e ≡ false) es → any f es ≡ false
none-any f [] h = refl
none-any f (x ∷ es) (h, hs) = ground (arith, none-any f es hs)

-- The plays that count as this one.
abbrev pub same_play : Play → List Media → WatchEvent → Bool
same_play p media = is_duplicate_of media p.user_id p.media_id p.now p.window none

-- A play of the same user and media that starts within the window after this one.
abbrev pub Repeats : Play → Play → Type 0
Repeats p q =
    (q.user_id ≡ p.user_id)
    × (q.media_id ≡ p.media_id)
    × (p.now ≤ q.now)
    × (q.now ≤ p.now + minutes q.window)

repeat-same_play :
    (p q : Play) (media : List Media) (id : ℕ)
    → Repeats p q
    → same_play q media (new_event p id) ≡ true
unfolding is_duplicate_of new_event
repeat-same_play p q media id h = ground arith

none-of-dup :
    (p : Play) (db : Db)
    → p.window ≢ 0
    → dup p db ≡ none
    → any (same_play p db.media) db.events ≡ false
none-of-dup p db w e = none-any _ db.events (
    subst (Finds (same_play p db.media) db.events) e
      (find_duplicate-Finds p.now db p.user_id p.media_id (some p.now) p.window none w))

some-of-dup :
    (p : Play) (db : Db) (x : WatchEvent)
    → p.window ≢ 0
    → dup p db ≡ some x
    → any (same_play p db.media) db.events ≡ true
some-of-dup p db x w e =
    let found =
      subst (Finds (same_play p db.media) db.events) e
        (find_duplicate-Finds p.now db p.user_id p.media_id (some p.now) p.window none w) in
    any-Occurs _ x db.events found.0 found.1

-- Two writes of one play within the window write one event: after a play that was new, a
-- repetition (another event of the session, another source) leaves the database as it is. (Its
-- window is not 0.)
pub write_once :
    (p q : Play) (db : Db)
    → dup p db ≡ none
    → q.window ≢ 0
    → Repeats p q
    → write_play q (write_play p db) ≡ write_play p db
write_once p q db e w h = elim (write-events p db) [
  | inr (some_play, _) ↦ absurd (some_play e)
  | inl (_, events, media) ↦ elim (write-events q (write_play p db)) [
    | inr (_, kept) ↦ kept
    | inl (new, _, _) ↦
        let listed : any (same_play q (write_play p db).media) (write_play p db).events ≡ true =
          rw (events, media)
            (any-last _ db.events (new_event p db.next_event)
              (repeat-same_play p q db.media db.next_event h)) in
        absurd (cc (none-of-dup q (write_play p db) w new, listed))
  ]
]

self-Repeats : (p : Play) → Repeats p p
self-Repeats p = (refl, refl, omega arith, omega arith)

-- No completed play that is no echo is lost: after its write the history has a completed play of that media or
-- episode, by that user, within the window. (The window is not 0.)
pub write-recorded :
    (p : Play) (db : Db)
    → p.window ≢ 0
    → any (same_play p (write_play p db).media) (write_play p db).events ≡ true
write-recorded p db w = elim (write-events p db) [
  | inl (e, events, media) ↦
      rw (events, media)
        (any-last _ db.events (new_event p db.next_event)
          (repeat-same_play p p db.media db.next_event (self-Repeats p)))
  | inr (old, kept) ↦ rw kept (elim (Option-cases (dup p db)) [
    | inl e ↦ absurd (old e)
    | inr (x, e) ↦ some-of-dup p db x w e
  ])
]
