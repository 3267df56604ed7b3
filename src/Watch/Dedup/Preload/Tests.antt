-- ===== src/Watch/Dedup/Preload/Tests.antt =====
-- One episode as two media rows, of which the first was watched.
use scrob.Prelude.{ℕ, ◌≡◌, refl, true, false, none, some, [], ◌∷◌, nat_eq, pair_eq}
use scrob.Prelude.Clock.{hours}
use scrob.Prelude.Dict.{get, put, has_key}
use scrob.Watch.{MediaType, Media, WatchEvent, Db}
use scrob.Watch.Dedup.{find_duplicate_watch_event}
use scrob.Watch.Dedup.Preload.{
  note_time, load_times, add_sibling, group_siblings, merged_times, set_times, merge_group,
  merge_groups, load_existing_watch_times, is_duplicate_watch_time,
}
use scrob.Watch.Dedup.Preload.Agrees.{found, all_completed, preload-agrees}

abbrev a_row : ℕ → Media
a_row id = record {
  id = id;
  media_type = MediaType.episode;
  show_id = some 7;
  season_number = some 1;
  episode_number = some 2;
}

abbrev started : WatchEvent
started = record {
  id = 1;
  user_id = 1;
  media_id = 11;
  watched_at = some (hours 9);
  created_at = 0;
  progress_seconds = none;
  progress_percent = none;
  completed = false;
  play_count = 1;
  provisional = false;
  source = none;
}

abbrev twin_rows : Db
twin_rows = record {
  media = a_row 11 ∷ a_row 12 ∷ [];
  shows = [];
  events = started ∷ [];
  next_event = 2;
  progress = [];
  rewatches = [];
  rewatch_progress = [];
}

-- The play was only started, and counts all the same.
twin_is_duplicate :
    is_duplicate_watch_time 0 (load_existing_watch_times twin_rows 1) 12 (some (hours 9)) 5 ≡ true
unfolding is_duplicate_watch_time load_existing_watch_times load_times note_time group_siblings
    add_sibling merge_groups merge_group merged_times set_times get put has_key
twin_is_duplicate = refl

preload-agrees_example :
    is_duplicate_watch_time 0 (load_existing_watch_times twin_rows 1) 12 (some (hours 9)) 5
    ≡ found (find_duplicate_watch_event 0 (all_completed twin_rows) 1 12 (some (hours 9)) 5 none)
preload-agrees_example =
    preload-agrees 0 twin_rows 1 12 (some (hours 9)) 5 (refl, (refl, tt)) (refl, (refl, tt))
