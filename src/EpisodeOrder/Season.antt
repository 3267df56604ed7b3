-- ===== src/EpisodeOrder/Season.antt =====
-- `ensure_episode_order_mapping_for_season` of backend/core/episode_order.py: what it does before it
-- waits for TMDB and TVDB, and what it does with their replies. Times are those of the monotonic clock.
pub mod Begin
pub mod Inserts
pub mod Alone
pub mod Guards
pub mod Once
use scrob.Prelude.{
  ℕ, ◌+◌, Bool, true, false, not, ◌&&◌, ◌||◌, Option, none, some, List, [], ◌∷◌, ◌++◌, filter, map,
  any, ltb, if◌then◌else◌, ◌==◌, nat_eq, pair_eq, contains, add,
}
use scrob.Prelude.Clock.{Time}
use scrob.Prelude.Dict.{Dict, get, put}
use scrob.Prelude.Text.{Text}
use scrob.EpisodeOrder.{
  TmdbEpisode, TvdbEpisode, EpisodeOrderMapping, Matching, matched, value_error, type_error,
  match_tmdb_to_tvdb_episodes,
}

-- Of a show, what is read of it; `has_keys` says that both API keys are set.
pub record Request : Type 0 where
  pub tmdb_id : ℕ
  pub tvdb_id : Option ℕ
  pub season_number : ℕ
  pub has_keys : Bool

-- The table, with the series of each row, and the two guards of the process.
pub record Mappings : Type 0 where
  pub table : List (ℕ × EpisodeOrderMapping)
  pub attempts : Dict ℕ Time
  pub locks : List ℕ

abbrev pub has_value : Option ℕ → Bool
has_value none = false
has_value (some n) = not (n == 0)

abbrev pub is_recent : Option Time → Time → Bool
is_recent none now = false
is_recent (some deadline) now = ltb now deadline

unfoldable pub rows_of : ℕ → List (ℕ × EpisodeOrderMapping) → List EpisodeOrderMapping
rows_of series [] = []
rows_of series ((s, m) ∷ table) =
    let rest = rows_of series table in if s == series then m ∷ rest else rest

abbrev pub tmdb_position : EpisodeOrderMapping → ℕ × ℕ
tmdb_position m = (m.tmdb_season_number, m.tmdb_episode_number)

abbrev pub is_mapped : List EpisodeOrderMapping → TmdbEpisode → Bool
is_mapped existing t = contains (map tmdb_position existing) (t.season_number, t.episode_number)

-- The two unique constraints, against the rows of the series.
unfoldable pub clashes : EpisodeOrderMapping → List EpisodeOrderMapping → Bool
clashes m rows = any (λ r. tmdb_position r == tmdb_position m || r.tvdb_id == m.tvdb_id) rows

-- `add_all` and `flush`: all rows are inserted, or none.
unfoldable pub insert_all :
    ℕ
    → List EpisodeOrderMapping
    → List (ℕ × EpisodeOrderMapping)
    → Option (List (ℕ × EpisodeOrderMapping))
insert_all series [] table = some table
insert_all series (m ∷ ms) table = elim (clashes m (rows_of series table)) [
  | true ↦ none
  | false ↦ insert_all series ms ((series, m) ∷ table)
]

-- Up to the first request: nothing, or the rows of the show with its lock taken.
unfoldable pub begin_season :
    ℕ → Time → Request → Mappings → Mappings × Option (List EpisodeOrderMapping)
begin_season ttl now r s =
    if not (has_value r.tvdb_id) || not r.has_keys
    then (s, none)
    else if is_recent (get s.attempts r.tmdb_id) now || contains s.locks r.tmdb_id
    then (s, none)
    else (let existing = rows_of r.tmdb_id s.table in
        if any (λ m. m.tvdb_season_number == r.season_number) existing then (s, none) else (
          record s { attempts = put r.tmdb_id (now + ttl) s.attempts; locks = r.tmdb_id ∷ s.locks },
          some existing,
        ))

abbrev pub release : ℕ → Mappings → Mappings
release series s = record s { locks = filter (λ l. not (l == series)) s.locks }

pub data Reply : Type 0 where
  rows : List EpisodeOrderMapping → Reply
  raises : Reply

abbrev pub insert_mappings : ℕ → List EpisodeOrderMapping → Mappings → Mappings × Reply
insert_mappings series ms s = elim (insert_all series ms s.table) [
  | none ↦ (s, rows [])
  | some table ↦ (record s { table = table }, rows ms)
]

module _ (ascii : Text → Text) (parse_date : Text → Option ℕ)
    (external : TmdbEpisode → Option ℕ) where
  -- The matching of what has no row yet; a ValueError is no mapping.
  unfoldable pub season_mappings :
      List EpisodeOrderMapping → List TmdbEpisode → List TvdbEpisode → Matching
  season_mappings existing tmdb_episodes tvdb_episodes =
      match_tmdb_to_tvdb_episodes ascii parse_date external
        (filter (λ t. not (is_mapped existing t)) tmdb_episodes) tvdb_episodes
        (map (λ m. m.tvdb_id) existing)

  -- `fetched` is none if a request raised.
  unfoldable pub finish_season :
      Request
      → List EpisodeOrderMapping
      → Option (List TmdbEpisode × List TvdbEpisode)
      → Mappings
      → Mappings × Reply
  finish_season r existing none s = (release r.tmdb_id s, rows [])
  finish_season r existing (some (tmdb_episodes, tvdb_episodes)) s =
      elim (season_mappings existing tmdb_episodes tvdb_episodes) [
        | value_error ↦ (release r.tmdb_id s, rows [])
        | type_error ↦ (release r.tmdb_id s, raises)
        | matched ms ↦ insert_mappings r.tmdb_id ms (release r.tmdb_id s)
      ]

  -- `meanwhile` is what other requests do to the table and the guards during the wait.
  unfoldable pub ensure_episode_order_mapping_for_season :
      ℕ
      → Time
      → Request
      → Option (List TmdbEpisode × List TvdbEpisode)
      → (Mappings → Mappings)
      → Mappings
      → Mappings × Reply
  ensure_episode_order_mapping_for_season ttl now r fetched meanwhile s =
      (let (begun, work) = begin_season ttl now r s in
        elim work [
          | none ↦ (begun, rows [])
          | some existing ↦ finish_season r existing fetched (meanwhile begun)
        ])
