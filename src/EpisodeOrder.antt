-- ===== src/EpisodeOrder.antt =====
-- The matching of a show's TMDB episodes to TVDB episodes: `_match_tmdb_to_tvdb_episodes` and the
-- on-demand mapping of a season, of backend/core/episode_order.py. Library calls are parameters:
-- `ascii` folds a title, `parse_date` reads an ISO date as a number of days, `external` is the TVDB
-- id that TMDB gives for an episode.
pub mod Season
pub mod Found
pub mod Matched
pub mod Unique
mod Tests
use scrob.Prelude.{
  ℕ, ◌+◌, ◌-◌, ◌*◌, ◌/◌, Bool, true, false, not, ◌&&◌, ◌||◌, Option, none, some, List, [], ◌∷◌,
  filter, map, any, length, leb, ltb, if◌then◌else◌, ◌==◌, nat_eq, contains, add,
}
use mathlib.Core.List.{reverse}
use scrob.Prelude.Dict.{Dict, get, put}
use scrob.Prelude.Text.{Text, text_eq, lower}
use scrob.PushState.Save.{startswith}

pub record TmdbEpisode : Type 0 where
  pub id : ℕ
  pub season_number : ℕ
  pub episode_number : ℕ
  pub name : Option Text
  pub air_date : Option Text

pub record TvdbEpisode : Type 0 where
  pub id : Option ℕ
  pub name : Option Text
  pub aired : Option Text
  pub season_number : Option ℕ
  pub number : Option ℕ

pub data Method : Type 0 where
  external_id title_date : Method

-- A row of episode_order_mappings, of one show.
pub record EpisodeOrderMapping : Type 0 where
  pub tmdb_season_number : ℕ
  pub tmdb_episode_number : ℕ
  pub tmdb_episode_id : ℕ
  pub tvdb_id : ℕ
  pub tvdb_season_number : ℕ
  pub tvdb_episode_number : ℕ
  pub match_method : Method

abbrev pub or_empty : Option Text → Text
or_empty none = []
or_empty (some s) = s

-- `[a-z0-9]`
abbrev pub is_word : ℕ → Bool
is_word c = leb b'a' c && leb c b'z' || leb b'0' c && leb c b'9'

abbrev pub distance : ℕ → ℕ → ℕ
distance a b = if leb a b then b - a else a - b

abbrev pub min_prefix_match_length : ℕ
min_prefix_match_length = 4

abbrev pub endswith : Text → Text → Bool
endswith longer shorter = startswith (reverse shorter) (reverse longer)

-- The two titles by their length, which `sorted` leaves as they are if it is the same.
abbrev pub ends_in : Text → Text → Bool
ends_in shorter longer = leb min_prefix_match_length (length shorter) && endswith longer shorter

unfoldable pub titles_match : Text → Text → Option ℕ → Bool
titles_match [] tvdb_title air_date_distance = false
titles_match (c ∷ tmdb_title) [] air_date_distance = false
titles_match (c ∷ tmdb_title) (d ∷ tvdb_title) none = (c ∷ tmdb_title) == (d ∷ tvdb_title)
titles_match (c ∷ tmdb_title) (d ∷ tvdb_title) (some air_date_distance) =
    if ltb 1 air_date_distance
    then false
    else if (c ∷ tmdb_title) == (d ∷ tvdb_title)
    then true
    else if leb (length (c ∷ tmdb_title)) (length (d ∷ tvdb_title))
    then ends_in (c ∷ tmdb_title) (d ∷ tvdb_title)
    else ends_in (d ∷ tvdb_title) (c ∷ tmdb_title)

abbrev pub is_used : List ℕ → Option ℕ → Bool
is_used used none = false
is_used used (some id) = contains used id

-- A later episode with the same id replaces an earlier one.
unfoldable pub tvdb_by_id : List TvdbEpisode → Dict ℕ TvdbEpisode → Dict ℕ TvdbEpisode
tvdb_by_id [] d = d
tvdb_by_id (e ∷ episodes) d = tvdb_by_id episodes (elim e.id [ none ↦ d | some id ↦ put id e d ])

-- One round of the loop; `int(None)` raises.
pub data Round : Type 0 where
  skipped raised : Round
  mapped : EpisodeOrderMapping → Round

pub data Matching : Type 0 where
  matched : List EpisodeOrderMapping → Matching
  value_error type_error : Matching

abbrev pub probe_size : ℕ
probe_size = 10

abbrev pub nth : ℕ → List TmdbEpisode → Option TmdbEpisode
nth n [] = none
nth n (e ∷ episodes) = if n == 0 then some e else nth (n - 1) episodes

abbrev pub prepend : EpisodeOrderMapping → Matching → Matching
prepend m (matched ms) = matched (m ∷ ms)
prepend m value_error = value_error
prepend m type_error = type_error

-- A single candidate, if there is no other.
abbrev pub only : List TvdbEpisode → Option (TvdbEpisode × Method)
only [] = none
only (c ∷ []) = some (c, title_date)
only (c ∷ d ∷ cs) = none

module _ (ascii : Text → Text) (parse_date : Text → Option ℕ)
    (external : TmdbEpisode → Option ℕ) where
  unfoldable pub normalise_title : Option Text → Text
  normalise_title value = filter is_word (lower (ascii (or_empty value)))

  unfoldable pub date_distance : Option Text → Option Text → Option ℕ
  date_distance none right = none
  date_distance (some left) none = none
  date_distance (some left) (some right) =
      if left == [] || right == [] then none else elim (parse_date left) [
        | none ↦ none
        | some a ↦ elim (parse_date right) [ none ↦ none | some b ↦ some (distance a b) ]
      ]

  abbrev pub names_same : TmdbEpisode → TvdbEpisode → Bool
  names_same episode candidate =
      titles_match (normalise_title episode.name) (normalise_title candidate.name)
        (date_distance episode.air_date candidate.aired)

  unfoldable pub external_match : List ℕ → Dict ℕ TvdbEpisode → TmdbEpisode → Option TvdbEpisode
  external_match used by_id episode = elim (external episode) [
    | none ↦ none
    | some id ↦ if id == 0 || contains used id then none else get by_id id
  ]

  abbrev pub candidates : List ℕ → List TvdbEpisode → TmdbEpisode → List TvdbEpisode
  candidates used tvdb_episodes episode =
      filter (λ c. not (is_used used c.id) && names_same episode c) tvdb_episodes

  unfoldable pub find_match :
      List ℕ → List TvdbEpisode → TmdbEpisode → Option (TvdbEpisode × Method)
  find_match used tvdb_episodes episode =
      elim (external_match used (tvdb_by_id tvdb_episodes []) episode) [
        | some e ↦ some (e, external_id)
        | none ↦ only (candidates used tvdb_episodes episode)
      ]

  -- A TVDB episode without a key "id" raises a KeyError, one whose id is null a TypeError: `raised`.
  abbrev pub mapping_of : TmdbEpisode → TvdbEpisode × Method → Round
  mapping_of episode (e, method) = elim e.season_number [
    | none ↦ skipped
    | some season ↦ elim e.number [
      | none ↦ skipped
      | some number ↦ elim e.id [
        | none ↦ raised
        | some id ↦ mapped (record {
          tmdb_season_number = episode.season_number;
          tmdb_episode_number = episode.episode_number;
          tmdb_episode_id = episode.id;
          tvdb_id = id;
          tvdb_season_number = season;
          tvdb_episode_number = number;
          match_method = method;
        })
      ]
    ]
  ]

  unfoldable pub match_episode : List ℕ → List TvdbEpisode → TmdbEpisode → Round
  match_episode used tvdb_episodes episode = elim (find_match used tvdb_episodes episode) [
    | none ↦ skipped
    | some m ↦ mapping_of episode m
  ]

  unfoldable pub match_episodes : List ℕ → List TvdbEpisode → List TmdbEpisode → Matching
  match_episodes used tvdb_episodes [] = matched []
  match_episodes used tvdb_episodes (episode ∷ episodes) =
      elim (match_episode used tvdb_episodes episode) [
        | skipped ↦ match_episodes used tvdb_episodes episodes
        | raised ↦ type_error
        | mapped m ↦ prepend m (match_episodes (add m.tvdb_id used) tvdb_episodes episodes)
      ]

  abbrev pub has_id : List TvdbEpisode → TmdbEpisode → Bool
  has_id tvdb_episodes episode = elim (external episode) [
    | none ↦ false
    | some id ↦ not (id == 0) && any (λ e. is_used (id ∷ []) e.id) tvdb_episodes
  ]

  unfoldable pub would_match : List TvdbEpisode → TmdbEpisode → Bool
  would_match tvdb_episodes episode =
      has_id tvdb_episodes episode || any (names_same episode) tvdb_episodes

  abbrev pub would_match_at : List TmdbEpisode → List TvdbEpisode → ℕ → Bool
  would_match_at tmdb_episodes tvdb_episodes i =
      elim (nth ((i * length tmdb_episodes) / probe_size) tmdb_episodes) [
        | none ↦ false
        | some e ↦ would_match tvdb_episodes e
      ]

  -- The probe of a sample that is spread over a long series.
  unfoldable pub is_doomed : List TmdbEpisode → List TvdbEpisode → Bool
  is_doomed tmdb_episodes tvdb_episodes =
      ltb probe_size (length tmdb_episodes)
      && not (
          any (would_match_at tmdb_episodes tvdb_episodes)
            (0 ∷ 1 ∷ 2 ∷ 3 ∷ 4 ∷ 5 ∷ 6 ∷ 7 ∷ 8 ∷ 9 ∷ []))

  unfoldable pub match_tmdb_to_tvdb_episodes :
      List TmdbEpisode → List TvdbEpisode → List ℕ → Matching
  match_tmdb_to_tvdb_episodes [] tvdb_episodes used = value_error
  match_tmdb_to_tvdb_episodes (e ∷ episodes) [] used = value_error
  match_tmdb_to_tvdb_episodes (e ∷ episodes) (t ∷ tvdb_episodes) used =
      elim (is_doomed (e ∷ episodes) (t ∷ tvdb_episodes)) [
        | true ↦ value_error
        | false ↦ match_episodes used (t ∷ tvdb_episodes) (e ∷ episodes)
      ]
