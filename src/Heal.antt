-- ===== src/Heal.antt =====
-- The sweeps over a user's history that backend/routers/sync.py offers: `heal_duplicate_history` and
-- `heal_push_echo_duplicates`.
pub mod Clusters
pub mod Groups
pub mod Leftover
pub mod Watched
pub mod Bursts
mod Tests
use scrob.Prelude.{
  ℕ, ◌+◌, ◌≡◌, ◌↔◌, refl, Bool, true, false, not, ◌&&◌, ◌||◌, Option, none, some, List, [], ◌∷◌,
  ◌++◌, arith, filter, map, any, find?, length, ltb, leb, if◌then◌else◌, ◌==◌, Keyed, nat_eq,
  contains, min,
}
use scrob.Prelude.Clock.{Time, minutes}
use scrob.Prelude.Dict.{Dict, get, put}
use scrob.Prelude.Sorting.{sort_by}
use scrob.Watch.{is_episode, Media, WatchEvent, Db}
use scrob.Watch.Dedup.{effective_time}

-- What was watched: ("episode", show, season, episode) or ("media", id).
pub data Identity : Type 0 where
  of_episode : ℕ → ℕ → ℕ → Identity
  of_media : ℕ → Identity

abbrev pub identity_beq : Identity → Identity → Bool
identity_beq (of_episode a b c) (of_episode x y z) = a == x && b == y && c == z
identity_beq (of_media a) (of_media x) = a == x
identity_beq (of_episode a b c) (of_media x) = false
identity_beq (of_media a) (of_episode x y z) = false

pub identity_beq_iff : (i j : Identity) → (identity_beq i j ≡ true) ↔ (i ≡ j)
identity_beq_iff (of_episode a b c) (of_episode x y z) = ground arith
identity_beq_iff (of_media a) (of_media x) = ground arith
identity_beq_iff (of_episode a b c) (of_media x) = ground arith
identity_beq_iff (of_media a) (of_episode x y z) = ground arith

instance abbrev pub identity_eq : Keyed Identity
identity_eq = record { same = identity_beq; same_iff = identity_beq_iff }

-- `identity.get(media_id, ("media", media_id))`
abbrev pub position_identity : Media → Identity
position_identity m = elim m.show_id [
  | none ↦ of_media m.id
  | some show ↦ elim m.season_number [
    | none ↦ of_media m.id
    | some season ↦ elim m.episode_number [
      | none ↦ of_media m.id
      | some episode ↦ of_episode show season episode
    ]
  ]
]

unfoldable pub identity_of : List Media → ℕ → Identity
identity_of media media_id = elim (find? (λ m. m.id == media_id) media) [
  | none ↦ of_media media_id
  | some m ↦ if is_episode m.media_type then position_identity m else of_media media_id
]

abbrev pub tier : WatchEvent → ℕ
tier e = if e.completed && not e.provisional then 0 else if e.completed then 1 else 2

-- `<` of two ranks.
abbrev pub rank_ltb : WatchEvent → WatchEvent → Bool
rank_ltb a b =
    ltb (tier a) (tier b) || (tier a == tier b && ltb (effective_time a) (effective_time b))

-- `min(cluster, key=_rank)` of a cluster with a first element.
unfoldable pub keeper : WatchEvent → List WatchEvent → WatchEvent
keeper e [] = e
keeper e (x ∷ xs) = keeper (if rank_ltb x e then x else e) xs

-- The ids that a cluster gives up.
unfoldable pub resolve : List WatchEvent → List ℕ
resolve [] = []
resolve (e ∷ []) = []
resolve (e ∷ x ∷ xs) =
    let kept = keeper e (x ∷ xs) in
    map (λ r. r.id) (filter (λ r. not (r.id == kept.id)) (e ∷ x ∷ xs))

abbrev pub is_apart : ℕ → List WatchEvent → WatchEvent → Bool
is_apart tolerance [] e = false
is_apart tolerance (a ∷ []) e = ltb (effective_time a + tolerance) (effective_time e)
is_apart tolerance (a ∷ b ∷ rest) e = is_apart tolerance (b ∷ rest) e

-- The loop over the events of one identity, with the cluster so far.
unfoldable pub sweep : ℕ → List WatchEvent → List WatchEvent → List ℕ
sweep tolerance cluster [] = resolve cluster
sweep tolerance cluster (e ∷ events) = elim (is_apart tolerance cluster e) [
  | true ↦ resolve cluster ++ sweep tolerance (e ∷ []) events
  | false ↦ sweep tolerance (cluster ++ e ∷ []) events
]

abbrev pub or_nil : Option (List WatchEvent) → List WatchEvent
or_nil none = []
or_nil (some events) = events

-- `by_media.setdefault(k, []).append(e)`
unfoldable pub append_to :
    Identity → WatchEvent → Dict Identity (List WatchEvent) → Dict Identity (List WatchEvent)
append_to k e d = put k (or_nil (get d k) ++ e ∷ []) d

unfoldable pub by_identity :
    List Media → List WatchEvent → Dict Identity (List WatchEvent) → Dict Identity (List WatchEvent)
by_identity media [] d = d
by_identity media (e ∷ events) d =
    by_identity media events (append_to (identity_of media e.media_id) e d)

abbrev pub earlier : WatchEvent → WatchEvent → Bool
earlier a b = leb (effective_time a) (effective_time b)

-- `order_by(WatchEvent.media_id, WatchEvent.id)`
abbrev pub media_order : WatchEvent → WatchEvent → Bool
media_order a b = ltb a.media_id b.media_id || (a.media_id == b.media_id && leb a.id b.id)

unfoldable pub sweep_groups : ℕ → Dict Identity (List WatchEvent) → List ℕ
sweep_groups tolerance [] = []
sweep_groups tolerance ((k, events) ∷ groups) =
    sweep tolerance [] (sort_by earlier events) ++ sweep_groups tolerance groups

unfoldable pub duplicates : ℕ → ℕ → Db → List ℕ
duplicates window user_id db =
    sweep_groups (minutes window)
      (by_identity db.media (sort_by media_order (filter (λ e. e.user_id == user_id) db.events)) [])

abbrev pub delete_ids : List ℕ → Db → Db
delete_ids ids db = record db {
  events = filter (λ e. not (contains ids e.id)) db.events;
  rewatch_progress = filter (λ p. not (contains ids p.watch_event_id)) db.rewatch_progress;
}

pub data Healed : Type 0 where
  healed : ℕ → Healed
  invalid_window : Healed

unfoldable pub heal_duplicate_history : ℕ → ℕ → Db → Db × Healed
heal_duplicate_history window user_id db = if ltb window 1 then (db, invalid_window) else (
  delete_ids (duplicates window user_id db) db,
  healed (length (duplicates window user_id db)),
)

-- A completed play that a media server's webhook alone reports.
abbrev pub is_pushed : ℕ → WatchEvent → Bool
is_pushed user_id e =
    e.user_id == user_id
    && e.provisional
    && e.completed
    && elim e.watched_at [ none ↦ false | some t ↦ true ]

abbrev pub is_of : ℕ → ℕ → WatchEvent → Bool
is_of user_id media_id e = e.user_id == user_id && e.media_id == media_id

abbrev pub min_id : ℕ → Option ℕ → Option ℕ
min_id i none = some i
min_id i (some j) = some (min i j)

-- `min(WatchEvent.id)` of the user's events of one media.
unfoldable pub earliest_id : ℕ → ℕ → List WatchEvent → Option ℕ
earliest_id user_id media_id [] = none
earliest_id user_id media_id (e ∷ events) =
    let rest = earliest_id user_id media_id events in
    if is_of user_id media_id e then min_id e.id rest else rest

abbrev pub is_id : Option ℕ → ℕ → Bool
is_id none i = false
is_id (some j) i = i == j

abbrev pub burst_gap : ℕ
burst_gap = minutes 2

abbrev pub burst_min_size : ℕ
burst_min_size = 5

-- `earliest` stands for `earliest_id_by_media.get`.
module _ (earliest : ℕ → Option ℕ) where
  unfoldable pub flush_burst : List WatchEvent → List ℕ
  flush_burst burst =
      if leb burst_min_size (length burst)
      then map (λ r. r.id) (filter (λ r. not (is_id (earliest r.media_id) r.id)) burst)
      else []

  abbrev is_later : Option Time → WatchEvent → Bool
  is_later none r = false
  is_later (some prev) r = ltb (prev + burst_gap) (effective_time r)

  unfoldable pub burst_echoes : Option Time → List WatchEvent → List WatchEvent → List ℕ
  burst_echoes prev_at burst [] = flush_burst burst
  burst_echoes prev_at burst (r ∷ rows) = elim (is_later prev_at r) [
    | true ↦ flush_burst burst ++ burst_echoes (some (effective_time r)) (r ∷ []) rows
    | false ↦ burst_echoes (some (effective_time r)) (burst ++ r ∷ []) rows
  ]

unfoldable pub push_echoes : ℕ → Db → List ℕ
push_echoes user_id db =
    burst_echoes (λ media_id. earliest_id user_id media_id db.events) none []
      (sort_by earlier (filter (is_pushed user_id) db.events))

unfoldable pub heal_push_echo_duplicates : ℕ → Db → Db × ℕ
heal_push_echo_duplicates user_id db =
    (delete_ids (push_echoes user_id db) db, length (push_echoes user_id db))
