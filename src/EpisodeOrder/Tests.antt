-- ===== src/EpisodeOrder/Tests.antt =====
-- A show of two episodes, the second of which TVDB lists as a special.
use scrob.Prelude.{
  ℕ, ◌≡◌, refl, true, none, some, Option, List, [], ◌∷◌, arith, if◌then◌else◌, ◌==◌, nat_eq,
  pair_eq, contains, add, ◌+◌, inl,
}
use scrob.Prelude.Dict.{get, put}
use scrob.Prelude.Sums.{sum}
use scrob.Prelude.Text.{Text, codes, lower, text_eq}
use scrob.PushState.Save.{startswith}
use scrob.EpisodeOrder.{
  TmdbEpisode, TvdbEpisode, external_id, title_date, EpisodeOrderMapping, matched, titles_match,
  tvdb_by_id, normalise_title, date_distance, external_match, find_match, match_episode,
  match_episodes, is_doomed, match_tmdb_to_tvdb_episodes,
}
use scrob.EpisodeOrder.Unique.{Ensures, match-Ensures}
use scrob.EpisodeOrder.Season.{
  Request, Mappings, rows_of, rows, begin_season, season_mappings,
  ensure_episode_order_mapping_for_season,
}
use scrob.EpisodeOrder.Season.Alone.{IsDistinct, season-inserts}
use scrob.EpisodeOrder.Season.Once.{run, season-once}
use scrob.EpisodeOrder.Season.Guards.{begins, finishes}

abbrev same_text : Text → Text
same_text s = s

abbrev day : Text → Option ℕ
day s = some 100

abbrev of_tmdb : TmdbEpisode → Option ℕ
of_tmdb t = if t.id == 1 then some 501 else none

abbrev tmdb_side : List TmdbEpisode
tmdb_side =
    record {
      id = 1;
      season_number = 1;
      episode_number = 1;
      name = some (codes "Pilot");
      air_date = none;
    }
    ∷ record {
      id = 2;
      season_number = 1;
      episode_number = 2;
      name = some (codes "White Lovers");
      air_date = some (codes "1989-03-18");
    }
    ∷ []

abbrev tvdb_side : List TvdbEpisode
tvdb_side =
    record {
      id = some 501;
      name = some (codes "Pilot");
      aired = none;
      season_number = some 1;
      number = some 1;
    }
    ∷ record {
      id = some 502;
      name = some (codes "Orange Road: White Lovers");
      aired = some (codes "1989-03-18");
      season_number = some 0;
      number = some 4;
    }
    ∷ []

abbrev pairs : List EpisodeOrderMapping
pairs =
    record {
      tmdb_season_number = 1;
      tmdb_episode_number = 1;
      tmdb_episode_id = 1;
      tvdb_id = 501;
      tvdb_season_number = 1;
      tvdb_episode_number = 1;
      match_method = external_id;
    }
    ∷ record {
      tmdb_season_number = 1;
      tmdb_episode_number = 2;
      tmdb_episode_id = 2;
      tvdb_id = 502;
      tvdb_season_number = 0;
      tvdb_episode_number = 4;
      match_method = title_date;
    }
    ∷ []

both_matched :
    match_tmdb_to_tvdb_episodes same_text day of_tmdb tmdb_side tvdb_side [] ≡ matched pairs
unfolding match_tmdb_to_tvdb_episodes is_doomed match_episodes match_episode find_match
    external_match tvdb_by_id titles_match normalise_title date_distance get put contains add lower
    startswith
both_matched = refl

match-Ensures_example :
    Ensures same_text day of_tmdb tmdb_side tvdb_side []
      (match_tmdb_to_tvdb_episodes same_text day of_tmdb tmdb_side tvdb_side [])
match-Ensures_example = match-Ensures same_text day of_tmdb tmdb_side tvdb_side []

abbrev special_played : Request
special_played = record { tmdb_id = 7; tvdb_id = some 70; season_number = 0; has_keys = true }

abbrev unmapped : Mappings
unmapped = record { table = []; attempts = []; locks = [] }

begun_here : (begin_season 1800 5 special_played unmapped).1 ≡ some []
unfolding begin_season get contains rows_of
begun_here = refl

season_matched : season_mappings same_text day of_tmdb [] tmdb_side tvdb_side ≡ matched pairs
unfolding season_mappings match_tmdb_to_tvdb_episodes is_doomed match_episodes match_episode
    find_match external_match tvdb_by_id titles_match normalise_title date_distance get put contains
    add lower startswith
season_matched = refl

tmdb_side-IsDistinct : IsDistinct tmdb_side
tmdb_side-IsDistinct s e = ground arith

season-inserts_example :
    ((ensure_episode_order_mapping_for_season same_text day of_tmdb 1800 5 special_played
        (some (tmdb_side, tvdb_side))
        (λ x. x)
        unmapped).1
      ≡ rows pairs)
    × ((f : EpisodeOrderMapping → ℕ)
        → sum f (
            rows_of 7
              (ensure_episode_order_mapping_for_season same_text day of_tmdb 1800 5 special_played
                (some (tmdb_side, tvdb_side))
                (λ x. x)
                unmapped).0.table)
          ≡ sum f pairs + sum f [])
season-inserts_example =
    season-inserts same_text day of_tmdb 1800 5 special_played tmdb_side tvdb_side unmapped [] pairs
      tmdb_side-IsDistinct begun_here season_matched

-- Another request comes during the wait, and the first one then finds nothing.
season-once_example :
    ensure_episode_order_mapping_for_season same_text day of_tmdb 1800 6 special_played none
      (λ x. x)
      (run same_text day of_tmdb 1800
        (begins 6 special_played ∷ finishes special_played [] none ∷ [])
        (begin_season 1800 5 special_played unmapped).0)
    ≡ (
      run same_text day of_tmdb 1800
          (begins 6 special_played ∷ finishes special_played [] none ∷ [])
          (begin_season 1800 5 special_played unmapped).0,
      rows [],
    )
season-once_example =
    season-once same_text day of_tmdb 1800 5 6 special_played special_played none (λ x. x) unmapped
      [] (begins 6 special_played ∷ finishes special_played [] none ∷ []) begun_here refl
      (inl (omega arith, (omega arith, (tt, tt))))
