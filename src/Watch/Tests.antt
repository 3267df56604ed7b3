-- ===== src/Watch/Tests.antt =====
-- Runs of the watch history's operations on a small database.
use scrob.Prelude.{
  ℕ, ◌≡◌, ◌≢◌, refl, true, false, not, ◌&&◌, none, some, [], ◌∷◌, ◌++◌, arith, ◌≤◌, ◌⊎◌, any,
  filter, if◌then◌else◌, ◌==◌, nat_eq, string_eq, pair_eq, ◌||◌, ltb, leb, ◌+◌, ◌*◌, List,
}
use scrob.Prelude.Dict.{DistinctKeys, get, has_key, put}
use scrob.Watch.{MediaType, Media, WatchEvent, ShowRewatch, Season, Show, Db}
use scrob.Watch.Dedup.{
  find_duplicate_watch_event, is_duplicate_of, same_episode_media_ids, first_by_id,
}
use scrob.Watch.Dedup.Repetition.{IsRepetition}
use scrob.Watch.Dedup.Duplicates.{FindsLeast, find_duplicate-least}
use scrob.Watch.Rewatch.{
  insert_progress, episode_show, get_active_rewatch, record_rewatch_progress, progress_count,
  is_still_active, capped_season_episode_counts,
}
use scrob.Watch.Rewatch.Counts.{count_of}
use scrob.Watch.Rewatch.Aired.{is_listed, listed, is_late, is_up_to, counts-aired}
use scrob.Watch.Rewatch.Cycle.{known, IsComplete, Tidy, record-Tidy, record-counts}
use scrob.Watch.Webhook.{
  Play, Deliveries, is_duplicate_webhook_delivery, is_recent, webhook_dedup_window,
  mark_pushed_watched, write_play, handle_unwatch_toggle, cycle_of, is_play_of, new_progress,
  update_playback_progress,
}
use scrob.Watch.Webhook.Progress.{entries_of, progress_exact}
use scrob.Watch.Webhook.Sessions.{
  Race, new_session, get_or_open_session, close_session, session_one, nth, segment_for_progress,
  episode_for_progress, episode_position,
}
use scrob.Watch.Webhook.Deliveries.{delivery_exact}
use scrob.Watch.Webhook.Echoes.{echoes, matched, queue_of, echoes-mark}
use scrob.Watch.Webhook.Plays.{dup, same_play, write_once, write-recorded}
use scrob.Watch.Webhook.Unwatch.{Answers, unwatch_twice}

abbrev first_episode : Media
first_episode = record {
  id = 11;
  media_type = MediaType.episode;
  show_id = some 7;
  season_number = some 1;
  episode_number = some 1;
}

abbrev season_one : Season
season_one = record { season_number = 1; episode_count = 3; air_date = none }

abbrev the_show : Show
the_show = record {
  id = 7;
  status = some "Ended";
  seasons = season_one ∷ [];
  last_episode = some (record { season_number = 1; episode_number = 2; air_date = none });
  next_episode = none;
}

abbrev the_cycle : ShowRewatch
the_cycle = record { id = 4; user_id = 1; show_id = 7; started_at = 100 }

abbrev old_play : WatchEvent
old_play = record {
  id = 1;
  user_id = 1;
  media_id = 11;
  watched_at = some 1000000000;
  created_at = 1000000000;
  progress_seconds = none;
  progress_percent = none;
  completed = true;
  play_count = 1;
  provisional = false;
  source = none;
}

abbrev the_db : Db
the_db = record {
  media = first_episode ∷ [];
  shows = the_show ∷ [];
  events = old_play ∷ [];
  next_event = 2;
  progress = [];
  rewatches = the_cycle ∷ [];
  rewatch_progress = record { rewatch_id = 4; media_id = 12; watch_event_id = 1 } ∷ [];
}

abbrev a_play : Play
a_play = record {
  now = 9000000000;
  today = "2025-01-01";
  user_id = 1;
  media_id = 11;
  progress_percent = 1000000;
  progress_seconds = 1200;
  window = 5;
  source = none;
}

abbrev a_repetition : Play
a_repetition = record a_play { now = 9000000010 }

five : ◌≢◌ {A = ℕ} 5 0
five e = omega (arith, e)

find_duplicate-least_example :
    FindsLeast
      (IsRepetition (the_db).media 1 11 1000000005 5 none)
      (the_db).events
      (find_duplicate_watch_event 0 the_db 1 11 (some 1000000005) 5 none)
find_duplicate-least_example = find_duplicate-least 0 the_db 1 11 (some 1000000005) 5 none five

counts-aired_example :
    leb 2 (count_of (capped_season_episode_counts the_show none "2025-01-01") 1) ≡ (
      is_listed (listed (the_show).seasons 1) 2
      && not (is_late (false && is_still_active (some "Ended")) "2025-01-01" (the_show).seasons 1)
      && is_up_to "2025-01-01"
          (record { season_number = 1; episode_number = 2; air_date = none })
          1
          2)
counts-aired_example = counts-aired the_show none "2025-01-01" 1 2 (omega arith)

the_db-Tidy : Tidy the_db
the_db-Tidy = record { backed = (refl, tt); distinct = (refl, tt) }

record-Tidy_example : Tidy (record_rewatch_progress "2025-01-01" 1 11 1 the_db)
record-Tidy_example = record-Tidy "2025-01-01" 1 11 1 the_db the_db-Tidy

show_found : episode_show the_db 11 ≡ some 7
unfolding episode_show
show_found = refl

cycle_found : get_active_rewatch the_db 1 7 ≡ some the_cycle
unfolding get_active_rewatch
cycle_found = refl

record-counts_example :
    ((any
          (λ q. q.rewatch_id == 4 && q.media_id == 11)
          (record_rewatch_progress "2025-01-01" 1 11 1 the_db).rewatch_progress
        ≡ true)
      × ((record_rewatch_progress "2025-01-01" 1 11 1 the_db).rewatches ≡ (the_db).rewatches))
    ⊎ ((known (record_rewatch_progress "2025-01-01" 1 11 1 the_db).rewatches 4 ≡ false)
        × (progress_count 4 (record_rewatch_progress "2025-01-01" 1 11 1 the_db) ≡ 0)
        × IsComplete "2025-01-01" the_cycle
            (insert_progress (record { rewatch_id = 4; media_id = 11; watch_event_id = 1 }) the_db))
record-counts_example = record-counts "2025-01-01" 1 11 1 7 the_cycle the_db show_found cycle_found

abbrev a_delivery : Deliveries
a_delivery = ("k", 5) ∷ []

a_delivery-DistinctKeys : DistinctKeys a_delivery
unfolding has_key
a_delivery-DistinctKeys = (refl, tt)

delivery_exact_example :
    ((is_duplicate_webhook_delivery 9 "k" a_delivery).1
      ≡ is_recent webhook_dedup_window 9 (get a_delivery "k"))
    × (get (is_duplicate_webhook_delivery 9 "k" a_delivery).0 "k" ≡ some 9)
    × DistinctKeys (is_duplicate_webhook_delivery 9 "k" a_delivery).0
delivery_exact_example = delivery_exact 9 "k" a_delivery a_delivery-DistinctKeys

echoes-mark_example :
    (echoes (20 ∷ 30 ∷ []) 1 11 (mark_pushed_watched 10 1 11 [])).0
    ≡ matched (20 ∷ 30 ∷ []) (queue_of [] 1 11 ++ 10 ∷ [])
echoes-mark_example = echoes-mark (20 ∷ 30 ∷ []) 10 1 11 [] tt refl

new_play : dup a_play the_db ≡ none
unfolding find_duplicate_watch_event is_duplicate_of same_episode_media_ids first_by_id
new_play = refl

write_once_example : write_play a_repetition (write_play a_play the_db) ≡ write_play a_play the_db
write_once_example =
    write_once a_play a_repetition the_db new_play five (refl, refl, omega arith, omega arith)

write-recorded_example :
    any (same_play a_play (write_play a_play the_db).media) (write_play a_play the_db).events ≡ true
write-recorded_example = write-recorded a_play the_db five

unwatch_twice_example :
    Answers the_db (handle_unwatch_toggle 1 first_episode the_db)
    × ((handle_unwatch_toggle 1 first_episode (handle_unwatch_toggle 1 first_episode the_db).0).1
        ≡ false)
    × ((handle_unwatch_toggle 1 first_episode
          (handle_unwatch_toggle 1 first_episode the_db).0).0.events
        ≡ (handle_unwatch_toggle 1 first_episode the_db).0.events)
    × ((handle_unwatch_toggle 1 first_episode the_db).0.events
        ≡ elim (cycle_of the_db 1 first_episode) [
          | none ↦ filter (λ e. not (is_play_of 1 first_episode e)) (the_db).events
          | some r ↦ (the_db).events
        ])
unwatch_twice_example = unwatch_twice 1 first_episode the_db

abbrev half_watched : Db
half_watched = record the_db {
  progress = new_progress 5 1 11 300000 700 ∷ new_progress 6 2 11 200000 400 ∷ [];
}

progress_exact_example :
    entries_of 1 11 (update_playback_progress 9 1 11 400000 900 half_watched).progress ≡ (
      if ◌==◌ {K = ℕ} 1 1 && ◌==◌ {K = ℕ} 11 11
      then (if ltb 400000 50000 || leb 900000 400000
          then []
          else new_progress 9 1 11 400000 900 ∷ [])
      else entries_of 1 11 half_watched.progress)
progress_exact_example = progress_exact 9 1 11 400000 900 half_watched 1 11 (omega arith)

open_session :
    get_or_open_session Race.alone 9 "s1" "plex" 1 11 []
    ≡ some (put "s1" (new_session 9 "s1" "plex" 1 11) [], new_session 9 "s1" "plex" 1 11)
unfolding get_or_open_session get
open_session = refl

session_one_example :
    (get_or_open_session Race.beaten_and_closed 12 "s1" "plex" 1 11
        (put "s1" (new_session 9 "s1" "plex" 1 11) [])
      ≡ some (put "s1" (new_session 9 "s1" "plex" 1 11) [], new_session 9 "s1" "plex" 1 11))
    × ((close_session "s1" (put "s1" (new_session 9 "s1" "plex" 1 11) [])).1
        ≡ some (new_session 9 "s1" "plex" 1 11))
    × (get (close_session "s1" (put "s1" (new_session 9 "s1" "plex" 1 11) [])).0 "s1" ≡ none)
session_one_example =
    session_one Race.alone Race.beaten_and_closed 9 12 "s1" "plex" 1 11 []
      (put "s1" (new_session 9 "s1" "plex" 1 11) []) (new_session 9 "s1" "plex" 1 11) open_session

abbrev a_file : List Media
a_file = first_episode ∷ record first_episode { id = 12; episode_number = some 2 } ∷ []

episode_position_example :
    ((episode_for_progress a_file 750000 2000).0 ≢ none)
    × ((episode_for_progress a_file 750000 2000).0
        ≡ nth (segment_for_progress 2 750000 2000).0 a_file)
    × ((episode_for_progress a_file 750000 2000).1.0 ≤ 1000000)
    × ((segment_for_progress 2 750000 2000).0 * 1000000
          + (episode_for_progress a_file 750000 2000).1.0
        ≡ 750000 * 2)
episode_position_example = episode_position a_file 750000 2000 (omega arith) (omega arith)
