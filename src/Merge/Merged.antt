-- ===== src/Merge/Merged.antt =====
-- What `_merge_episode_media` makes of the whole database.
use scrob.Prelude.{
  ℕ, ◌+◌, ◌≤◌, ◌≡◌, Bool, false, not, ◌&&◌, ◌||◌, List, [], filter, any, length, if◌then◌else◌,
  ◌==◌, nat_eq,
}
use scrob.Merge.{Owned, Event, Dependent, Db}
use scrob.Merge.Adopt.{has, count, DistinctIds}

-- The keys of a table of owned rows: the id, and the pair of owner and media.
pub record Keys (t : List Owned) : Type 0 where
  pub ids : DistinctIds t
  pub pairs : (o m : ℕ) → count o m t ≤ 1

pub record Tidy (db : Db) : Type 0 where
  pub rewatch_progress : Keys db.rewatch_progress
  pub playback_progress : Keys db.playback_progress
  pub ratings : Keys db.ratings
  pub list_items : Keys db.list_items
  pub collections : Keys db.collections

-- Who has a row where, once the rows at `d` have joined those at `c`.
abbrev pub joined : ℕ → ℕ → ℕ → ℕ → List Owned → Bool
joined c d o m t = if m == c then has o c t || has o d t else if m == d then false else has o m t

abbrev pub plays : ℕ → ℕ → List Event → ℕ
plays u m events = length (filter (λ e. e.user_id == u && e.media_id == m) events)

abbrev pub move_event : ℕ → ℕ → Event → Event
move_event c d e = if e.media_id == d then record e { media_id = c } else e

abbrev pub rows_at : ℕ → List Dependent → List Dependent
rows_at m t = filter (λ r. r.media_id == m) t

-- The rows at `d` are gone, and those at every other media are as they were.
abbrev pub Cascaded : ℕ → List Dependent → List Dependent → Type 0
Cascaded d t t' = (m : ℕ) → rows_at m t' ≡ (if m == d then [] else rows_at m t)

pub record Merged (c d : ℕ) (db db' : Db) : Type 0 where
  pub rewatch_progress :
      (o m : ℕ) → has o m db'.rewatch_progress ≡ joined c d o m db.rewatch_progress
  pub playback_progress :
      (o m : ℕ) → has o m db'.playback_progress ≡ joined c d o m db.playback_progress
  pub ratings : (o m : ℕ) → has o m db'.ratings ≡ joined c d o m db.ratings
  pub list_items : (o m : ℕ) → has o m db'.list_items ≡ joined c d o m db.list_items
  pub collections : (o m : ℕ) → has o m db'.collections ≡ joined c d o m db.collections
  pub events :
      (u m : ℕ)
      → plays u m db'.events ≡ (
          if m == c
          then plays u c db.events + plays u d db.events
          else if m == d
          then 0
          else plays u m db.events)
  pub playback_sessions : Cascaded d db.playback_sessions db'.playback_sessions
  pub push_states : Cascaded d db.push_states db'.push_states
  pub pending_pushes : Cascaded d db.pending_pushes db'.pending_pushes
  pub translations : Cascaded d db.translations db'.translations
  pub episodes :
      (id : ℕ)
      → any (λ e. e.id == id) db'.episodes ≡ (not (id == d) && any (λ e. e.id == id) db.episodes)
