-- ===== src/Watch/Webhook.antt =====
-- The playback core of backend/routers/webhooks.py: repeated deliveries, echoes of pushed plays,
-- sessions, Continue Watching, and the writing of plays. Each call reads the clock once, as `now`.
pub mod Deliveries
pub mod Echoes
pub mod Plays
pub mod Progress
pub mod Sessions
pub mod Unwatch
use scrob.Prelude.{
  ℕ, ◌+◌, String, Bool, true, false, not, ◌&&◌, ◌||◌, Option, none, some, List, [], ◌∷◌, ◌++◌, map,
  ltb, leb, filter, any, all, find?, length, if◌then◌else◌, ◌==◌, nat_eq, string_eq, pair_eq,
  contains,
}
use scrob.Prelude.Clock.{Time, seconds, minutes}
use scrob.Prelude.Dict.{Dict, get, put, remove}
use scrob.Watch.{is_episode, Media, WatchEvent, PlaybackProgress, ShowRewatch, RewatchProgress, Db}
use scrob.Watch.Dedup.{find_duplicate_watch_event}
use scrob.Watch.Rewatch.{get_active_rewatch, record_rewatch_progress}

-- `_recent_webhook_deliveries`
abbrev pub Deliveries : Type 0
Deliveries = Dict String Time

abbrev pub webhook_dedup_window : ℕ
webhook_dedup_window = seconds 15

-- `now - t < window`
abbrev pub is_recent : ℕ → Time → Option Time → Bool
is_recent window now none = false
is_recent window now (some t) = ltb now (t + window)

unfoldable pub prune_deliveries : Time → Deliveries → Deliveries
prune_deliveries now d =
    if ltb 2000 (length d) then filter (λ e. not (ltb (e.1 + webhook_dedup_window) now)) d else d

unfoldable pub is_duplicate_webhook_delivery : Time → String → Deliveries → Deliveries × Bool
is_duplicate_webhook_delivery now key d =
    let d' = prune_deliveries now d in
    (put key now d', is_recent webhook_dedup_window now (get d' key))

-- `_recently_pushed_watched`: a queue for each user and media.
abbrev pub Pushed : Type 0
Pushed = Dict (ℕ × ℕ) (List Time)

abbrev pub pushed_watched_ttl : ℕ
pushed_watched_ttl = minutes 10

abbrev pub or_empty : Option (List Time) → List Time
or_empty none = []
or_empty (some q) = q

unfoldable pub prune_pushed : Time → Pushed → Pushed
prune_pushed now d =
    if ltb 5000 (length d)
    then filter (λ e. not (all (λ t. ltb (t + pushed_watched_ttl) now) e.1)) d
    else d

unfoldable pub mark_pushed_watched : Time → ℕ → ℕ → Pushed → Pushed
mark_pushed_watched now user_id media_id d =
    let d' = prune_pushed now d in
    put (user_id, media_id) (or_empty (get d' (user_id, media_id)) ++ now ∷ []) d'

abbrev pub is_fresh : Time → Time → Bool
is_fresh now t = ltb now (t + pushed_watched_ttl)

-- The queue without its head; an empty queue is deleted.
abbrev pub put_back : ℕ × ℕ → List Time → Pushed → Pushed
put_back key [] d = remove key d
put_back key (t ∷ q) d = put key (t ∷ q) d

abbrev pub consume_queue : Time → ℕ × ℕ → Option (List Time) → Pushed → Pushed × Bool
consume_queue now key none d = (d, false)
consume_queue now key (some []) d = (d, false)
consume_queue now key (some (t ∷ q)) d = (put_back key q d, is_fresh now t)

unfoldable pub consume_recently_pushed_watched : Time → ℕ → ℕ → Pushed → Pushed × Bool
consume_recently_pushed_watched now user_id media_id d =
    consume_queue now (user_id, media_id) (get d (user_id, media_id)) d

abbrev pub is_progress_of : ℕ → ℕ → PlaybackProgress → Bool
is_progress_of user_id media_id p = p.user_id == user_id && p.media_id == media_id

abbrev pub delete_progress : ℕ → ℕ → Db → Db
delete_progress user_id media_id db = record db {
  progress = filter (λ p. not (is_progress_of user_id media_id p)) db.progress;
}

abbrev pub new_progress : Time → ℕ → ℕ → ℕ → ℕ → PlaybackProgress
new_progress now user_id media_id percent secs = record {
  user_id = user_id;
  media_id = media_id;
  progress_percent = percent;
  progress_seconds = secs;
  updated_at = now;
}

-- 0.05 and 0.90, in millionths.
unfoldable pub update_playback_progress : Time → ℕ → ℕ → ℕ → ℕ → Db → Db
update_playback_progress now user_id media_id percent secs db =
    if ltb percent 50000 || leb 900000 percent
    then delete_progress user_id media_id db
    else if any (is_progress_of user_id media_id) db.progress
    then record db {
      progress =
          map
            (λ p.
              if is_progress_of user_id media_id p
              then new_progress now user_id media_id percent secs
              else p)
            db.progress;
    }
    else record db { progress = db.progress ++ new_progress now user_id media_id percent secs ∷ [] }

-- What a handler passes along: the clock and the date, the user's window, the source.
pub record Play : Type 0 where
  pub now : Time
  pub today : String
  pub user_id : ℕ
  pub media_id : ℕ
  pub progress_percent : ℕ
  pub progress_seconds : ℕ
  pub window : ℕ
  pub source : Option String

unfoldable pub new_event : Play → ℕ → WatchEvent
new_event p id = record {
  id = id;
  user_id = p.user_id;
  media_id = p.media_id;
  watched_at = some p.now;
  created_at = p.now;
  progress_seconds = some p.progress_seconds;
  progress_percent = some 1000000;
  completed = true;
  play_count = 1;
  provisional = true;
  source = p.source;
}

abbrev pub insert_event : Play → Db → Db
insert_event p db = delete_progress p.user_id p.media_id (record db {
  events = db.events ++ new_event p db.next_event ∷ [];
  next_event = db.next_event + 1;
})

-- The play is not an echo: it is written unless it is one that is already there.
unfoldable pub write_play : Play → Db → Db
write_play p db =
    elim (find_duplicate_watch_event p.now db p.user_id p.media_id (some p.now) p.window none) [
      | some e ↦ db
      | none ↦
          record_rewatch_progress p.today p.user_id p.media_id db.next_event (insert_event p db)
    ]

pub record State : Type 0 where
  pub db : Db
  pub pushed : Pushed

unfoldable pub write_watch_event : Play → Bool → State → State × Bool
write_watch_event p false s = (
  record s {
    db =
        update_playback_progress p.now p.user_id p.media_id p.progress_percent p.progress_seconds
          s.db;
  },
  true,
)
write_watch_event p true s =
    let (pushed', echo) = consume_recently_pushed_watched p.now p.user_id p.media_id s.pushed in
    if echo
    then (record s { pushed = pushed' }, false)
    else (record { db = write_play p s.db; pushed = pushed' }, true)

-- The media of the list whose play was no echo.
unfoldable pub write_completed_events_and_filter_echoes :
    Play → List Media → State → State × List Media
write_completed_events_and_filter_echoes p [] s = (s, [])
write_completed_events_and_filter_echoes p (m ∷ media) s =
    let (s', real) =
      write_watch_event (record p { media_id = m.id; progress_percent = 1000000 }) true s in
    let (s'', rest) = write_completed_events_and_filter_echoes p media s' in
    (s'', if real then m ∷ rest else rest)

-- Deleting plays deletes, by the foreign key, the progress rows that name them.
abbrev pub delete_events : (WatchEvent → Bool) → Db → Db
delete_events gone db = record db {
  events = filter (λ e. not (gone e)) db.events;
  rewatch_progress =
      filter (λ p. not (any (λ e. gone e && e.id == p.watch_event_id) db.events))
        db.rewatch_progress;
}

abbrev pub cycle_of : Db → ℕ → Media → Option ShowRewatch
cycle_of db user_id m = elim m.show_id [
  | none ↦ none
  | some show_id ↦ if is_episode m.media_type then get_active_rewatch db user_id show_id else none
]

abbrev pub is_play_of : ℕ → Media → WatchEvent → Bool
is_play_of user_id m e = e.user_id == user_id && e.media_id == m.id

abbrev pub is_step_of : ShowRewatch → Media → RewatchProgress → Bool
is_step_of r m p = p.rewatch_id == r.id && p.media_id == m.id

abbrev pub without_step : ShowRewatch → Media → Db → Db
without_step r m db = record db {
  rewatch_progress = filter (λ p. not (is_step_of r m p)) db.rewatch_progress;
}

-- The answer is whether any row was deleted.
unfoldable pub handle_unwatch_toggle : ℕ → Media → Db → Db × Bool
handle_unwatch_toggle user_id m db = elim (cycle_of db user_id m) [
  | some r ↦ (without_step r m db, any (is_step_of r m) db.rewatch_progress)
  | none ↦ (delete_events (is_play_of user_id m) db, any (is_play_of user_id m) db.events)
]
