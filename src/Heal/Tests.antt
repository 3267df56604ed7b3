-- ===== src/Heal/Tests.antt =====
-- Runs of the history sweeps: a webhook's and an import's play of one film, and an echo of it.
use scrob.Prelude.{ℕ, ◌≡◌, refl, true, none, some, [], ◌∷◌, arith, map, nat_eq, contains}
use scrob.Prelude.Clock.{hours}
use scrob.Prelude.Sorting.{sort_by, insert_by}
use scrob.Prelude.Dict.{get, put}
use scrob.Watch.{MediaType, Media, WatchEvent, Db}
use scrob.Heal.{
  of_episode, identity_of, append_to, by_identity, sweep, resolve, keeper, sweep_groups, duplicates,
  heal_duplicate_history, earliest_id, flush_burst, burst_echoes, push_echoes,
  heal_push_echo_duplicates,
}
use scrob.Heal.Watched.{heal-keeps_watched}
use scrob.Heal.Leftover.{UniqueIds, has_watched}
use scrob.Heal.Bursts.{heal_push_echo-keeps_first}

abbrev an_episode : ℕ → Media
an_episode id = record {
  id = id;
  media_type = MediaType.episode;
  show_id = some 7;
  season_number = some 1;
  episode_number = some 2;
}

abbrev play : ℕ → ℕ → ℕ → WatchEvent
play id media_id at = record {
  id = id;
  user_id = 1;
  media_id = media_id;
  watched_at = some at;
  created_at = 0;
  progress_seconds = none;
  progress_percent = none;
  completed = true;
  play_count = 1;
  provisional = true;
  source = none;
}

-- One episode as two rows, watched once, and a film.
abbrev history : Db
history = record {
  media = an_episode 11 ∷ an_episode 12 ∷ [];
  shows = [];
  events = play 1 11 (hours 9) ∷ play 2 12 (hours 9) ∷ play 3 20 (hours 9) ∷ [];
  next_event = 4;
  progress = [];
  rewatches = [];
  rewatch_progress = [];
}

history-UniqueIds : UniqueIds history.events
history-UniqueIds i = ground arith

healed_once : map (λ e. e.id) (heal_duplicate_history 5 1 history).0.events ≡ 1 ∷ 3 ∷ []
unfolding heal_duplicate_history duplicates sweep_groups sweep resolve keeper by_identity append_to
    identity_of get put sort_by insert_by contains
healed_once = refl

heal-keeps_watched_example :
    has_watched history.media 1 (of_episode 7 1 2) (heal_duplicate_history 5 1 history).0.events
    ≡ has_watched history.media 1 (of_episode 7 1 2) history.events
heal-keeps_watched_example = heal-keeps_watched 5 1 history history-UniqueIds 1 (of_episode 7 1 2)

-- Five pushes came back, one of them for a film that was known.
abbrev pushed_back : Db
pushed_back = record history {
  events =
      play 1 20 (hours 1)
      ∷ play 2 20 (hours 9)
      ∷ play 3 21 (hours 9)
      ∷ play 4 22 (hours 9)
      ∷ play 5 23 (hours 9)
      ∷ play 6 24 (hours 9)
      ∷ [];
}

pushed_back-UniqueIds : UniqueIds pushed_back.events
pushed_back-UniqueIds i = ground arith

echo_removed :
    map (λ e. e.id) (heal_push_echo_duplicates 1 pushed_back).0.events ≡ 1 ∷ 3 ∷ 4 ∷ 5 ∷ 6 ∷ []
unfolding heal_push_echo_duplicates push_echoes burst_echoes flush_burst earliest_id sort_by
    insert_by contains
echo_removed = refl

heal_push_echo-keeps_first_example :
    earliest_id 1 20 (heal_push_echo_duplicates 1 pushed_back).0.events
    ≡ earliest_id 1 20 pushed_back.events
heal_push_echo-keeps_first_example =
    heal_push_echo-keeps_first 1 pushed_back pushed_back-UniqueIds 1 20
