-- ===== src/Watch/Dedup/Preload.antt =====
-- The preloaded check of bulk imports: `load_existing_watch_times` and `is_duplicate_watch_time` of
-- backend/core/watch_dedup.py.
pub mod Times
pub mod SamePlace
pub mod Places
pub mod Agrees
mod Tests
use scrob.Prelude.{
  ℕ, Bool, true, false, ◌&&◌, ◌||◌, Option, none, some, List, [], ◌∷◌, ◌++◌, filter, map, any,
  length, ltb, if◌then◌else◌, ◌==◌, nat_eq, pair_eq,
}
use scrob.Prelude.Clock.{Time, minutes}
use scrob.Prelude.Dict.{Dict, get, put, has_key}
use scrob.Watch.{is_episode, Media, WatchEvent, Db}
use scrob.Watch.Dedup.{same_position, effective_time, within, or_now}

abbrev pub Times : Type 0
Times = Dict ℕ (List Time)

-- `times.get(media_id, ())`
abbrev pub listed_or_nil : Option (List Time) → List Time
listed_or_nil none = []
listed_or_nil (some ts) = ts

abbrev pub times_of : Times → ℕ → List Time
times_of times media_id = listed_or_nil (get times media_id)

-- `times.setdefault(media_id, []).append(at)`
unfoldable pub note_time : ℕ → Time → Times → Times
note_time media_id at times = put media_id (times_of times media_id ++ at ∷ []) times

unfoldable pub load_times : ℕ → List WatchEvent → Times → Times
load_times user_id [] times = times
load_times user_id (e ∷ events) times =
    load_times user_id events
      (if e.user_id == user_id then note_time e.media_id (effective_time e) times else times)

abbrev pub Position : Type 0
Position = ℕ × (ℕ × ℕ)

abbrev pub position_from : Option ℕ → Option ℕ → Option ℕ → Option Position
position_from (some show) (some season) (some episode) = some (show, (season, episode))
position_from _ _ _ = none

abbrev pub position : Media → Option Position
position m = position_from m.show_id m.season_number m.episode_number

-- The rows that share the position of a watched episode.
abbrev pub is_sibling : List Media → Times → Media → Bool
is_sibling media times s =
    is_episode s.media_type
    && any (λ a. has_key times a.id && is_episode a.media_type && same_position s a) media

abbrev pub Groups : Type 0
Groups = Dict Position (List ℕ)

abbrev pub ids_or_nil : Option (List ℕ) → List ℕ
ids_or_nil none = []
ids_or_nil (some ids) = ids

-- `groups.setdefault(position, []).append(media_id)`; the join leaves no row without a position.
unfoldable pub add_sibling : Option Position → ℕ → Groups → Groups
add_sibling none id groups = groups
add_sibling (some p) id groups = put p (ids_or_nil (get groups p) ++ id ∷ []) groups

unfoldable pub group_siblings : List Media → Groups → Groups
group_siblings [] groups = groups
group_siblings (s ∷ siblings) groups =
    group_siblings siblings (add_sibling (position s) s.id groups)

unfoldable pub merged_times : Times → List ℕ → List Time
merged_times times [] = []
merged_times times (i ∷ ids) = times_of times i ++ merged_times times ids

unfoldable pub set_times : List ℕ → List Time → Times → Times
set_times [] merged times = times
set_times (i ∷ ids) merged times = set_times ids merged (put i merged times)

unfoldable pub merge_group : List ℕ → Times → Times
merge_group ids times =
    if ltb (length ids) 2 then times else set_times ids (merged_times times ids) times

unfoldable pub merge_groups : Groups → Times → Times
merge_groups [] times = times
merge_groups ((p, ids) ∷ groups) times = merge_groups groups (merge_group ids times)

abbrev pub shared_times : List Media → Times → Times
shared_times media times =
    merge_groups (group_siblings (filter (is_sibling media times) media) []) times

unfoldable pub load_existing_watch_times : Db → ℕ → Times
load_existing_watch_times db user_id = shared_times db.media (load_times user_id db.events [])

unfoldable pub is_duplicate_watch_time : Time → Times → ℕ → Option Time → ℕ → Bool
is_duplicate_watch_time now existing_times media_id candidate_time window =
    if window == 0
    then false
    else any (within (minutes window) (or_now candidate_time now))
        (times_of existing_times media_id)
