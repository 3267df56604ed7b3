-- ===== src/PushState.antt =====
-- What a push last sent: backend/core/push_state.py and backend/models/connection_push_state.py. A
-- value (a rating, 1.0, a moment) is counted in billionths and is not negative. The rows of the
-- table are keyed by their unique constraint.

pub mod Plan
pub mod Load
pub mod Save
mod Tests
use scrob.Prelude.{
  ℕ, zero, suc, ◌+◌, ◌-◌, Bool, true, false, not, ◌&&◌, ◌||◌, Option, none, some, List, [], ◌∷◌,
  ◌++◌, map, ltb, leb, max, filter, any, length, if◌then◌else◌, ◌==◌, nat_eq, pair_eq, String,
  contains, add, union,
}
use scrob.Prelude.Clock.{Time, days, hours}
use scrob.Prelude.Dict.{Dict, get, put}
use scrob.Prelude.Text.{Text, text_eq, codes}

abbrev pub full_reconcile_interval : ℕ
full_reconcile_interval = days 7

abbrev pub miss_ttl : ℕ
miss_ttl = hours 24

abbrev pub miss : Text
miss = codes "miss"

abbrev pub upsert_chunk : ℕ
upsert_chunk = 4000

abbrev pub delete_chunk : ℕ
delete_chunk = 5000

abbrev pub epsilon : ℕ
epsilon = 1000

pub data SyncStatus : Type 0 where
  pending running completed failed cancelled : SyncStatus

abbrev pub is_completed : SyncStatus → Bool
is_completed SyncStatus.completed = true
is_completed _ = false

abbrev pub is_interrupted : SyncStatus → Bool
is_interrupted SyncStatus.failed = true
is_interrupted SyncStatus.cancelled = true
is_interrupted _ = false

pub data Mode : Type 0 where
  full incremental : Mode

abbrev pub is_full : Option Mode → Bool
is_full (some Mode.full) = true
is_full _ = false

-- The job types are strings of which only "push" is asked for here.
pub data JobType : Type 0 where
  push : JobType
  other : String → JobType

abbrev pub is_push : JobType → Bool
is_push JobType.push = true
is_push (JobType.other s) = false

-- The columns of a sync job that are read, with `stats["mode"]`.
pub record SyncJob : Type 0 where
  pub connection_id : Option ℕ
  pub job_type : JobType
  pub status : SyncStatus
  pub mode : Option Mode
  pub created_at : Time
  pub updated_at : Time

pub record PushPlan : Type 0 where
  pub mode : Mode
  pub use_state : Bool
  pub resume_since : Option Time

abbrev pub is_job_of : ℕ → SyncJob → Bool
is_job_of connection_id j =
    elim j.connection_id [ none ↦ false | some c ↦ c == connection_id ] && is_push j.job_type

abbrev pub is_full_push : ℕ → SyncJob → Bool
is_full_push connection_id j = is_job_of connection_id j && is_completed j.status && is_full j.mode

-- `func.max` and `func.min` of no rows are null.
unfoldable pub latest : List SyncJob → Option Time
latest [] = none
latest (j ∷ jobs) = elim (latest jobs) [
  | none ↦ some j.updated_at
  | some t ↦ some (max j.updated_at t)
]

unfoldable pub first_created : List SyncJob → Option Time
first_created [] = none
first_created (j ∷ jobs) = elim (first_created jobs) [
  | none ↦ some j.created_at
  | some t ↦ some (if leb t j.created_at then t else j.created_at)
]

abbrev pub or_min : Option Time → Time
or_min none = 0
or_min (some t) = t

abbrev pub is_within_interval : Time → Option Time → Bool
is_within_interval now none = false
is_within_interval now (some t) = ltb now (t + full_reconcile_interval)

unfoldable pub plan_push : List SyncJob → ℕ → Bool → Time → PushPlan
plan_push jobs connection_id false now = record {
  mode = Mode.full;
  use_state = false;
  resume_since = none;
}
plan_push jobs connection_id true now =
    let last_full = latest (filter (is_full_push connection_id) jobs) in
    if is_within_interval now last_full
    then record { mode = Mode.incremental; use_state = true; resume_since = none }
    else (let window_start = max (or_min last_full) (now - full_reconcile_interval) in
        record {
          mode = Mode.full;
          use_state = false;
          resume_since = first_created (
              filter
                (λ j.
                  is_job_of connection_id j
                  && is_interrupted j.status
                  && ltb window_start j.created_at)
                jobs);
        })

abbrev pub Item : Type 0
Item = ℕ × Text

-- A value, and when it was written.
abbrev pub Row : Type 0
Row = Option ℕ × Time

pub record PushState : Type 0 where
  pub rows : Dict Item Row
  pub use_state : Bool
  pub resume_since : Option Time
  pub now : Time
  pub updates : Dict Item (Option ℕ)
  pub forgotten : List Item
  pub failed : List Item
  pub skipped : ℕ

abbrev pub new_state : Dict Item Row → Bool → Option Time → Time → PushState
new_state rows use_state resume_since now = record {
  rows = rows;
  use_state = use_state;
  resume_since = resume_since;
  now = now;
  updates = [];
  forgotten = [];
  failed = [];
  skipped = 0;
}

-- The table `connection_push_states`.
abbrev pub Table : Type 0
Table = Dict (ℕ × Item) Row

-- `{(m, k): (v, at) for ...}` of the rows of one connection.
unfoldable pub rows_of : ℕ → Table → Dict Item Row → Dict Item Row
rows_of connection_id [] d = d
rows_of connection_id (((c, item), row) ∷ t) d =
    rows_of connection_id t (if c == connection_id then put item row d else d)

unfoldable pub load : Table → ℕ → PushPlan → Time → PushState
load t connection_id plan now =
    if not plan.use_state && elim plan.resume_since [ none ↦ true | some since ↦ false ]
    then new_state [] false none now
    else new_state (rows_of connection_id t []) plan.use_state plan.resume_since now

abbrev pub distance : ℕ → ℕ → ℕ
distance a b = (a - b) + (b - a)

abbrev pub is_trusted : PushState → Time → Bool
is_trusted s at = s.use_state || elim s.resume_since [ none ↦ false | some since ↦ leb since at ]

abbrev pub unchanged_row : Option Row → Option ℕ → PushState → PushState × Bool
unchanged_row (some (some old, at)) (some value) s =
    if is_trusted s at && ltb (distance old value) epsilon
    then (record s { skipped = s.skipped + 1 }, true)
    else (s, false)
unchanged_row _ _ s = (s, false)

unfoldable pub unchanged : ℕ → Text → Option ℕ → PushState → PushState × Bool
unchanged media_id key value s = unchanged_row (get s.rows (media_id, key)) value s

unfoldable pub recent_miss : ℕ → Text → PushState → Bool
recent_miss media_id key s =
    s.use_state
    && elim (get s.rows (media_id, key)) [ none ↦ false | some row ↦ ltb s.now (row.1 + miss_ttl) ]

-- `record`
unfoldable pub record_value : ℕ → Text → Option ℕ → PushState → PushState
record_value media_id key value s = record s { updates = put (media_id, key) value s.updates }

unfoldable pub record_miss : ℕ → Text → PushState → PushState
record_miss media_id key s = record s { updates = put (media_id, key) none s.updates }

unfoldable pub forget : ℕ → Text → PushState → PushState
forget media_id key s = record s { forgotten = add (media_id, key) s.forgotten }

unfoldable pub fail : ℕ → Text → PushState → PushState
fail media_id key s = record s { failed = add (media_id, key) s.failed }
