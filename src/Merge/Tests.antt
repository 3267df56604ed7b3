-- ===== src/Merge/Tests.antt =====
-- Two rows of one episode, both watched and rated.
use scrob.Prelude.{◌≡◌, refl, true, false, none, some, [], ◌∷◌, nat_eq}
use scrob.Merge.{Episode, Db, Mapping, reconcile_mappings}
use scrob.Merge.Merged.{Merged}
use scrob.Merge.Reconcile.{has_episode, reconcile-keeps}

abbrev kept_row : Episode
kept_row = record {
  id = 1;
  show_id = some 7;
  tmdb_id = some 100;
  tvdb_id = none;
  season_number = some 1;
  episode_number = some 1;
}

abbrev moved_row : Episode
moved_row = record {
  id = 2;
  show_id = some 7;
  tmdb_id = none;
  tvdb_id = some 500;
  season_number = some 0;
  episode_number = some 3;
}

abbrev twice_rated : Db
twice_rated = record {
  events = record { id = 1; user_id = 5; media_id = 2 } ∷ [];
  rewatch_progress = [];
  playback_progress = record { id = 1; owner = 5; media_id = 2 } ∷ [];
  ratings =
      record { id = 1; owner = 5; media_id = 1 } ∷ record { id = 2; owner = 5; media_id = 2 } ∷ [];
  list_items = [];
  collections = [];
  files = [];
  comments = [];
  playback_sessions = [];
  push_states = record { id = 1; media_id = 1 } ∷ record { id = 2; media_id = 2 } ∷ [];
  pending_pushes = [];
  translations = [];
  episodes = kept_row ∷ moved_row ∷ [];
}

-- The mapping names another TVDB episode than the row at its position.
abbrev a_mapping : Mapping
a_mapping = record {
  tmdb_season_number = 1;
  tmdb_episode_number = 1;
  tvdb_id = 501;
  tvdb_season_number = 0;
  tvdb_episode_number = 3;
}

reconcile-keeps_example :
    has_episode 2
      (reconcile_mappings
        (λ c d. false)
        7
        (a_mapping ∷ [])
        (twice_rated, record { merged = 0; checked = 0 })).0.episodes
    ≡ true
reconcile-keeps_example =
    reconcile-keeps 2 (λ c d. false) 7 (a_mapping ∷ []) twice_rated
      (record { merged = 0; checked = 0 }) (refl, (refl, tt))
