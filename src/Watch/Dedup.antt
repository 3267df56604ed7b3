-- ===== src/Watch/Dedup.antt =====
-- Duplicate plays: backend/core/watch_dedup.py, on the rows that a transaction sees. The advisory
-- lock is what lets the rows be read as a value: a concurrent check waits for the commit.
pub mod Search
pub mod Preload
pub mod Repetition
pub mod Duplicates
use scrob.Prelude.{
  ℕ, ◌+◌, ◌≤◌, ◌≡◌, Bool, true, false, not, ◌&&◌, ◌||◌, Option, none, some, List, [], ◌∷◌, max, leb,
  ltb, filter, any, if◌then◌else◌, ◌==◌, nat_eq, contains,
}
use scrob.Prelude.Clock.{Time, minutes}
use scrob.Watch.{MediaType, is_episode, Media, WatchEvent, Db}

abbrev pub default_dedup_window_minutes : ℕ
default_dedup_window_minutes = 5

abbrev pub or_zero : Option ℕ → ℕ
or_zero none = 0
or_zero (some n) = n

-- The setting is the column of the user's settings row, if there is a row; so in both functions.
unfoldable pub dedup_window_from_settings : Option (Option ℕ) → ℕ
dedup_window_from_settings none = max default_dedup_window_minutes 0
dedup_window_from_settings (some configured) = max default_dedup_window_minutes (or_zero configured)

unfoldable pub get_dedup_window_minutes : List (ℕ × Option ℕ) → ℕ → ℕ
get_dedup_window_minutes [] user_id = max default_dedup_window_minutes 0
get_dedup_window_minutes ((u, configured) ∷ settings) user_id =
    if u == user_id
    then max default_dedup_window_minutes (or_zero configured)
    else get_dedup_window_minutes settings user_id

-- `a = b` of two nullable columns.
abbrev pub sql_eq : Option ℕ → Option ℕ → Bool
sql_eq (some a) (some b) = a == b
sql_eq _ _ = false

-- The join condition of `_same_episode_media_ids`.
abbrev pub same_position : Media → Media → Bool
same_position m anchor =
    sql_eq m.show_id anchor.show_id
    && sql_eq m.season_number anchor.season_number
    && sql_eq m.episode_number anchor.episode_number

unfoldable pub same_episode_media_ids : List Media → ℕ → List Media
same_episode_media_ids media media_id =
    filter (λ m. any (λ a. a.id == media_id && is_episode a.media_type && same_position m a) media)
      media

abbrev pub is_media : List Media → ℕ → ℕ → Bool
is_media media media_id other =
    other == media_id || any (λ m. m.id == other) (same_episode_media_ids media media_id)

abbrev pub effective_time : WatchEvent → Time
effective_time e = elim e.watched_at [ none ↦ e.created_at | some t ↦ t ]

-- `t.between(at - delta, at + delta)`.
abbrev pub within : ℕ → Time → Time → Bool
within delta at t = leb at (t + delta) && leb t (at + delta)

abbrev pub excluded : Option ℕ → WatchEvent → Bool
excluded none e = false
excluded (some id) e = e.id == id

-- The `where` of the query.
unfoldable pub is_duplicate_of : List Media → ℕ → ℕ → Time → ℕ → Option ℕ → WatchEvent → Bool
is_duplicate_of media user_id media_id at window exclude e =
    e.user_id == user_id
    && is_media media media_id e.media_id
    && e.completed
    && within (minutes window) at (effective_time e)
    && not (excluded exclude e)

-- `order_by(WatchEvent.id).limit(1)`
abbrev pub earlier : WatchEvent → Option WatchEvent → Option WatchEvent
earlier e none = some e
earlier e (some f) = if ltb f.id e.id then some f else some e

unfoldable pub first_by_id : List WatchEvent → Option WatchEvent
first_by_id [] = none
first_by_id (e ∷ es) = earlier e (first_by_id es)

abbrev pub or_now : Option Time → Time → Time
or_now none now = now
or_now (some t) now = t

unfoldable pub find_duplicate_watch_event :
    Time → Db → ℕ → ℕ → Option Time → ℕ → Option ℕ → Option WatchEvent
find_duplicate_watch_event now db user_id media_id candidate_time window exclude =
    if window == 0
    then none
    else first_by_id (
        filter
          (is_duplicate_of db.media user_id media_id (or_now candidate_time now) window exclude)
          db.events)
