-- ===== src/Watch/Webhook/Sessions.antt =====
-- Playback sessions: `_get_or_open_session`, `_close_session` and `_episode_for_progress` of
-- backend/routers/webhooks.py, on the table of backend/models/playback_session.py keyed by its
-- unique column.
use scrob.Prelude.{
  ℕ, zero, suc, ◌+◌, ◌-◌, ◌*◌, ◌/◌, ◌≤◌, ◌<◌, String, ◌≡◌, ◌≢◌, refl, Option, none, some, List, [],
  ◌∷◌, arith, min, length, if◌then◌else◌, ◌==◌, nat_eq, string_eq, Option-cases, inl, inr,
}
use scrob.Prelude.Clock.{Time}
use scrob.Prelude.Dict.{Dict, get, put, remove, get-put, get-remove}
use scrob.Watch.{Media}

pub record PlaybackSession : Type 0 where
  pub user_id : ℕ
  pub media_id : ℕ
  pub session_key : String
  pub source : String
  pub progress_percent : ℕ
  pub progress_seconds : ℕ
  pub started_at : Time
  pub updated_at : Time

abbrev pub Sessions : Type 0
Sessions = Dict String PlaybackSession

-- What happens between the SELECT and the INSERT: nothing, another request inserts the key, or it
-- does and the row is gone before the second SELECT.
pub data Race : Type 0 where
  alone : Race
  beaten : PlaybackSession → Race
  beaten_and_closed : Race

unfoldable pub new_session : Time → String → String → ℕ → ℕ → PlaybackSession
new_session now key source user_id media_id = record {
  user_id = user_id;
  media_id = media_id;
  session_key = key;
  source = source;
  progress_percent = 0;
  progress_seconds = 0;
  started_at = now;
  updated_at = now;
}

-- `none` is the IntegrityError that is raised again.
unfoldable pub get_or_open_session :
    Race → Time → String → String → ℕ → ℕ → Sessions → Option (Sessions × PlaybackSession)
get_or_open_session race now key source user_id media_id t = elim (get t key) [
  | some s ↦ some (t, s)
  | none ↦ elim race [
    | alone ↦ some (
      put key (new_session now key source user_id media_id) t,
      new_session now key source user_id media_id,
    )
    | beaten s ↦ some (put key s t, s)
    | beaten_and_closed ↦ none
  ]
]

unfoldable pub close_session : String → Sessions → Sessions × Option PlaybackSession
close_session key t = elim (get t key) [ none ↦ (t, none) | some s ↦ (remove key t, some s) ]

-- A fraction is counted in millionths, and exactly, where the code rounds a product of floats: at
-- the border of two episodes it may take the other one. The seconds are cut off.
unfoldable pub segment_for_progress : ℕ → ℕ → ℕ → ℕ × (ℕ × ℕ)
segment_for_progress n percent secs =
    let index = min (n - 1) (percent * n / 1000000) in
    let segment = min 1000000 (percent * n - index * 1000000) in
    (index, (segment, if percent == 0 then 0 else segment * secs / (percent * n)))

-- `media_list[i]`, and `none` where it raises.
unfoldable pub nth : ℕ → List Media → Option Media
nth i [] = none
nth zero (m ∷ media) = some m
nth (suc i) (m ∷ media) = nth i media

unfoldable pub episode_for_progress : List Media → ℕ → ℕ → Option Media × (ℕ × ℕ)
episode_for_progress media percent secs =
    let (index, played) = segment_for_progress (length media) percent secs in
    (nth index media, played)

open-get :
    (race : Race) (now : Time) (key source : String) (user_id media_id : ℕ) (t t' : Sessions)
    (s : PlaybackSession)
    → get_or_open_session race now key source user_id media_id t ≡ some (t', s)
    → get t' key ≡ some s
unfolding get_or_open_session
open-get race now key source u m t t' s h = elim (Option-cases (get t key)) [
  | inr (r, e) ↦ ground arith
  | inl e ↦ ground (arith, get-put key s t key, string_eq.same_iff key key)
]

-- An open session is the one row of its key, whoever won the race to insert it: a second open
-- returns it and adds nothing, and a close returns it and leaves no row of the key.
pub session_one :
    (race race' : Race) (now later : Time) (key source : String) (user_id media_id : ℕ)
    (t t' : Sessions) (s : PlaybackSession)
    → get_or_open_session race now key source user_id media_id t ≡ some (t', s)
    → (get_or_open_session race' later key source user_id media_id t' ≡ some (t', s))
      × ((close_session key t').1 ≡ some s)
      × (get (close_session key t').0 key ≡ none)
unfolding get_or_open_session close_session
session_one race race' now later key source u m t t' s h =
    let kept = open-get race now key source u m t t' s h in
    (ground arith, ground arith, ground (arith, get-remove key t' key, string_eq.same_iff key key))

mul_bound : (n p c : ℕ) → p ≤ c → p * n ≤ c * n
mul_bound zero p c h = omega arith
mul_bound (suc n) p c h = omega (arith, h, mul_bound n p c h)

nth-some : (i : ℕ) (media : List Media) → i < length media → nth i media ≢ none
unfolding nth
nth-some i [] h = absurd (omega (arith, h))
nth-some zero (m ∷ media) h = ground arith
nth-some (suc i) (m ∷ media) h = nth-some i media (omega (arith, h))

segment_position :
    (n percent secs : ℕ)
    → 1 ≤ n
    → percent ≤ 1000000
    → ((segment_for_progress n percent secs).0 < n)
      × ((segment_for_progress n percent secs).1.0 ≤ 1000000)
      × ((segment_for_progress n percent secs).0 * 1000000
            + (segment_for_progress n percent secs).1.0
          ≡ percent * n)
unfolding segment_for_progress
segment_position n percent secs h k =
    let bound : percent * n ≤ 1000000 * n = mul_bound n percent 1000000 k in
    (omega (arith, h), omega arith, omega (arith, h, bound))

-- Of a file with some episodes, one is always picked, at most the whole of it is played, and the
-- episodes before it with what is played of it are what is played of the file.
pub episode_position :
    (media : List Media) (percent secs : ℕ)
    → 1 ≤ length media
    → percent ≤ 1000000
    → ((episode_for_progress media percent secs).0 ≢ none)
      × ((episode_for_progress media percent secs).0
          ≡ nth (segment_for_progress (length media) percent secs).0 media)
      × ((episode_for_progress media percent secs).1.0 ≤ 1000000)
      × ((segment_for_progress (length media) percent secs).0 * 1000000
            + (episode_for_progress media percent secs).1.0
          ≡ percent * length media)
unfolding episode_for_progress
episode_position media percent secs h k =
    let (inside, most, whole) = segment_position (length media) percent secs h k in
    (nth-some _ media inside, refl, most, whole)
