-- ===== src/Watch.antt =====
-- The rows on which watch history stands: backend/models/{events,media,rewatch}.py, the seasons of
-- a show, and the users' settings. A progress fraction is counted in millionths.
pub mod Dedup
pub mod Rewatch
pub mod Webhook
mod Tests
use scrob.Prelude.{ℕ, String, Bool, Option, none, some, List, [], ◌∷◌}
use scrob.Prelude.Clock.{Time}

pub data MediaType : Type 0 where
  movie series episode person : MediaType

abbrev pub is_episode : MediaType → Bool
is_episode episode = Bool.true
is_episode _ = Bool.false

pub record Media : Type 0 where
  pub id : ℕ
  pub media_type : MediaType
  pub show_id : Option ℕ
  pub season_number : Option ℕ
  pub episode_number : Option ℕ

pub record WatchEvent : Type 0 where
  pub id : ℕ
  pub user_id : ℕ
  pub media_id : ℕ
  pub watched_at : Option Time
  pub created_at : Time
  pub progress_seconds : Option ℕ
  pub progress_percent : Option ℕ
  pub completed : Bool
  pub play_count : ℕ
  pub provisional : Bool
  pub source : Option String

-- Continue Watching.
pub record PlaybackProgress : Type 0 where
  pub user_id : ℕ
  pub media_id : ℕ
  pub progress_percent : ℕ
  pub progress_seconds : ℕ
  pub updated_at : Time

pub record ShowRewatch : Type 0 where
  pub id : ℕ
  pub user_id : ℕ
  pub show_id : ℕ
  pub started_at : Time

pub record RewatchProgress : Type 0 where
  pub rewatch_id : ℕ
  pub media_id : ℕ
  pub watch_event_id : ℕ

-- One element of `tmdb_data["seasons"]`; a date is ISO text, and an empty one is no date.
pub record Season : Type 0 where
  pub season_number : ℕ
  pub episode_count : ℕ
  pub air_date : Option String

-- `last_episode_to_air` and `next_episode_to_air`, where both numbers are present.
pub record AiredEpisode : Type 0 where
  pub season_number : ℕ
  pub episode_number : ℕ
  pub air_date : Option String

-- A show with the parts of its cached TMDB data that are read.
pub record Show : Type 0 where
  pub id : ℕ
  pub status : Option String
  pub seasons : List Season
  pub last_episode : Option AiredEpisode
  pub next_episode : Option AiredEpisode

pub record Db : Type 0 where
  pub media : List Media
  pub shows : List Show
  pub events : List WatchEvent
  pub next_event : ℕ
  pub progress : List PlaybackProgress
  pub rewatches : List ShowRewatch
  pub rewatch_progress : List RewatchProgress
