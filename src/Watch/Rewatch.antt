-- ===== src/Watch/Rewatch.antt =====
-- Rewatch cycles: backend/core/rewatch.py. Dates are ISO texts, compared as texts.
pub mod Counts
pub mod Aired
pub mod Cycle
use Prim.Native.Nat.{Ordering}
use Prim.Native.String.{compare}
use scrob.Prelude.{
  ℕ, ◌+◌, ◌-◌, String, Bool, true, false, not, ◌&&◌, ◌||◌, Option, none, some, List, [], ◌∷◌, ◌++◌,
  map, min, leb, ltb, filter, any, find?, length, if◌then◌else◌, ◌==◌, nat_eq, string_eq, contains,
  set_of, intersection,
}
use scrob.Prelude.Dict.{Dict, get, put}
use scrob.Watch.{
  MediaType, is_episode, Media, WatchEvent, ShowRewatch, RewatchProgress, Season, AiredEpisode,
  Show, Db,
}

-- `a <= b` of two texts.
abbrev pub str_leb : String → String → Bool
str_leb a b = elim (compare a b) [ Ordering.gt ↦ false | _ ↦ true ]

-- A season, and the last of its episodes that counts.
abbrev pub Cap : Type 0
Cap = ℕ × ℕ

-- `min` of two tuples.
unfoldable pub min_cap : Cap → Cap → Cap
min_cap (s, e) (t, f) =
    if ltb s t then (s, e) else if ltb t s then (t, f) else if leb e f then (s, e) else (t, f)

-- A number one below zero counts as zero: the counts are cut off there.
unfoldable pub last_cap : String → AiredEpisode → Cap
last_cap today e =
    let aired : Bool = elim e.air_date [ none ↦ true | some d ↦ str_leb d today ] in
    (e.season_number, if aired then e.episode_number else e.episode_number - 1)

abbrev pub next_cap : AiredEpisode → Cap
next_cap e = (e.season_number, e.episode_number - 1)

unfoldable pub cap_of : String → Option AiredEpisode → Option AiredEpisode → Option Cap
unfolding last_cap min_cap
cap_of today none none = none
cap_of today (some l) none = some (last_cap today l)
cap_of today none (some n) = some (next_cap n)
cap_of today (some l) (some n) = some (min_cap (last_cap today l) (next_cap n))

unfoldable pub base_counts : List Season → Dict ℕ ℕ → Dict ℕ ℕ
base_counts [] d = d
base_counts (s ∷ seasons) d = base_counts seasons (put s.season_number s.episode_count d)

-- The seasons after `cap_sn` count nothing, and `cap_sn` no more than `cap_en`; the keys are
-- distinct, so one pass does both writes.
unfoldable pub apply_cap : Cap → Dict ℕ ℕ → Dict ℕ ℕ
apply_cap c [] = []
apply_cap (cap_sn, cap_en) ((sn, n) ∷ d) =
    (sn, if ltb cap_sn sn then 0 else if sn == cap_sn then min n cap_en else n)
    ∷ apply_cap (cap_sn, cap_en) d

unfoldable pub is_still_active : Option String → Bool
is_still_active none = false
is_still_active (some s) =
    contains ("Returning Series" ∷ "In Production" ∷ "Planned" ∷ "Pilot" ∷ []) s

-- Whether a season's own date takes its count away.
unfoldable pub is_unaired : Bool → String → Season → Bool
is_unaired unanchored today s = elim s.air_date [
  | none ↦ unanchored
  | some d ↦ not (str_leb d today)
]

unfoldable pub drop_unaired : Bool → String → List Season → Dict ℕ ℕ → Dict ℕ ℕ
drop_unaired unanchored today [] d = d
drop_unaired unanchored today (s ∷ seasons) d =
    drop_unaired unanchored today seasons
      (if is_unaired unanchored today s then put s.season_number 0 d else d)

abbrev pub has_no_cap : Option Cap → Bool
has_no_cap none = true
has_no_cap (some c) = false

abbrev pub capped : Option Cap → Dict ℕ ℕ → Dict ℕ ℕ
capped none d = d
capped (some c) d = apply_cap c d

-- `extra` is the pair of episodes of a freshly fetched `tmdb_extra`.
unfoldable pub capped_season_episode_counts :
    Show → Option (Option AiredEpisode × Option AiredEpisode) → String → Dict ℕ ℕ
capped_season_episode_counts show extra today =
    let last_ep : Option AiredEpisode = elim extra [ none ↦ show.last_episode | some (l, n) ↦ l ] in
    let next_ep : Option AiredEpisode = elim extra [ none ↦ show.next_episode | some (l, n) ↦ n ] in
    let cap = cap_of today last_ep next_ep in
    drop_unaired (has_no_cap cap && is_still_active show.status) today show.seasons
      (capped cap (base_counts show.seasons []))

unfoldable pub sum_regular : Dict ℕ ℕ → ℕ
sum_regular [] = 0
sum_regular ((sn, n) ∷ d) = (if sn == 0 then 0 else n) + sum_regular d

unfoldable pub total_aired_episodes : Show → String → ℕ
total_aired_episodes show today = sum_regular (capped_season_episode_counts show none today)

unfoldable pub get_active_rewatch : Db → ℕ → ℕ → Option ShowRewatch
get_active_rewatch db user_id show_id =
    find? (λ r. r.user_id == user_id && r.show_id == show_id) db.rewatches

unfoldable pub get_rewatch_progress_media_ids : Db → ℕ → List ℕ
get_rewatch_progress_media_ids db rewatch_id =
    set_of (map (λ p. p.media_id) (filter (λ p. p.rewatch_id == rewatch_id) db.rewatch_progress))

unfoldable pub get_already_watched_for_bulk_mark : Db → ℕ → ℕ → List ℕ → List ℕ
get_already_watched_for_bulk_mark db user_id show_id [] = []
get_already_watched_for_bulk_mark db user_id show_id (m ∷ media_ids) =
    elim (get_active_rewatch db user_id show_id) [
      | some r ↦ intersection (get_rewatch_progress_media_ids db r.id) (set_of (m ∷ media_ids))
      | none ↦ set_of (
          map (λ e. e.media_id)
            (filter
              (λ e. e.user_id == user_id && contains (m ∷ media_ids) e.media_id && e.completed)
              db.events))
    ]

-- The row goes, and with it, by the foreign key, the progress rows of the cycle.
abbrev pub delete_rewatch : ℕ → Db → Db
delete_rewatch id db = record db {
  rewatches = filter (λ r. not (r.id == id)) db.rewatches;
  rewatch_progress = filter (λ p. not (p.rewatch_id == id)) db.rewatch_progress;
}

abbrev pub progress_count : ℕ → Db → ℕ
progress_count id db = length (filter (λ p. p.rewatch_id == id) db.rewatch_progress)

unfoldable pub maybe_complete_rewatch : String → ShowRewatch → Db → Db
maybe_complete_rewatch today r db = elim (find? (λ s. s.id == r.show_id) db.shows) [
  | none ↦ db
  | some show ↦
      (let total = total_aired_episodes show today in
        if total == 0
        then db
        else if leb total (progress_count r.id db)
        then delete_rewatch r.id db
        else db)
]

-- `on_conflict_do_nothing` on the pair of rewatch and media.
unfoldable pub insert_progress : RewatchProgress → Db → Db
insert_progress p db =
    if any (λ q. q.rewatch_id == p.rewatch_id && q.media_id == p.media_id) db.rewatch_progress
    then db
    else record db { rewatch_progress = db.rewatch_progress ++ p ∷ [] }

-- The show of an episode that has one; a show's id is never 0.
unfoldable pub episode_show : Db → ℕ → Option ℕ
episode_show db media_id = elim (find? (λ m. m.id == media_id) db.media) [
  | none ↦ none
  | some m ↦ if is_episode m.media_type then m.show_id else none
]

unfoldable pub record_rewatch_progress : String → ℕ → ℕ → ℕ → Db → Db
record_rewatch_progress today user_id media_id event_id db = elim (episode_show db media_id) [
  | none ↦ db
  | some show_id ↦ elim (get_active_rewatch db user_id show_id) [
    | none ↦ db
    | some r ↦ maybe_complete_rewatch today r (
        insert_progress
          (record { rewatch_id = r.id; media_id = media_id; watch_event_id = event_id }) db)
  ]
]
