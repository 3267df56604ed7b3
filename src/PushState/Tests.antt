-- ===== src/PushState/Tests.antt =====
-- A rating that is pushed, saved and met again.
use scrob.Prelude.{
  ℕ, ◌+◌, ◌≡◌, ◌<◌, refl, true, false, ◌&&◌, none, some, [], ◌∷◌, All, any, ltb, contains, nat_eq,
  pair_eq, ◌==◌, if◌then◌else◌,
}
use scrob.Prelude.Clock.{days}
use scrob.Prelude.Dict.{DistinctKeys, get, has_key}
use scrob.Prelude.Text.{Text, text_eq, codes}
use scrob.PushState.{
  SyncStatus, Mode, JobType, SyncJob, PushPlan, PushState, Table, full_reconcile_interval,
  is_full_push, plan_push, latest, first_created, new_state, record_value, fail, load, unchanged,
  distance, epsilon, miss,
}
use scrob.PushState.Plan.{plan-use_state, plan-resume}
use scrob.PushState.Save.{save, pending, startswith}
use scrob.PushState.Save.Saved.{get-save}
use scrob.PushState.Load.{believes, pushed-unchanged, failed-unchanged}

abbrev a_full_push : SyncJob
a_full_push = record {
  connection_id = some 5;
  job_type = JobType.push;
  status = SyncStatus.completed;
  mode = some Mode.full;
  created_at = days 100;
  updated_at = days 101;
}

abbrev interrupted : SyncJob
interrupted = record a_full_push {
  status = SyncStatus.failed;
  created_at = days 105;
  updated_at = days 106;
}

plan-use_state_example : (plan_push (a_full_push ∷ []) 5 true (days 107)).use_state ≡ (
    true
    && any
        (λ j. is_full_push 5 j && ltb (days 107) (j.updated_at + full_reconcile_interval))
        (a_full_push ∷ []))
plan-use_state_example = plan-use_state (a_full_push ∷ []) 5 true (days 107)

resumed :
    (plan_push (a_full_push ∷ interrupted ∷ []) 5 true (days 109)).resume_since ≡ some (days 105)
unfolding plan_push latest first_created
resumed = refl

plan-resume_example :
    (days 109 < days 105 + full_reconcile_interval)
    × All (λ j. is_full_push 5 j ≡ true → j.updated_at < days 105) (a_full_push ∷ interrupted ∷ [])
plan-resume_example =
    plan-resume (a_full_push ∷ interrupted ∷ []) 5 true (days 109) (days 105) resumed

abbrev rating : Text
rating = codes "rating"

abbrev the_plan : PushPlan
the_plan = record { mode = Mode.incremental; use_state = true; resume_since = none }

abbrev the_state : PushState
the_state = new_state [] true none (days 1)

abbrev the_table : Table
the_table = ((5, (8, rating)), (some 7000000000, days 0)) ∷ []

the_table-DistinctKeys : DistinctKeys the_table
unfolding has_key
the_table-DistinctKeys = (refl, tt)

nothing_failed : contains the_state.failed (8, rating) ≡ false
unfolding contains
nothing_failed = refl

get-save_example : get (save 5 the_state the_table).1 (5, (8, rating)) ≡ (
    if ◌==◌ {K = ℕ} 5 5
    then elim (get (pending the_state) (8, rating)) [
      | some v ↦ some (v, (the_state).now)
      | none ↦
          if contains (the_state).forgotten (8, rating)
          then none
          else get the_table (5, (8, rating))
    ]
    else get the_table (5, (8, rating)))
get-save_example = get-save 5 the_state the_table 5 8 rating tt the_table-DistinctKeys

pushed-unchanged_example :
    (unchanged 8 rating (some 7500000000) (
      load
        (save 5 (record_value 8 rating (some 7500000000) the_state) the_table).1
        5
        the_plan
        (days 2))).1
    ≡ (believes the_plan (days 1) && ltb (distance 7500000000 7500000000) epsilon)
pushed-unchanged_example =
    pushed-unchanged the_state the_table 5 8 rating 7500000000 7500000000 the_plan (days 2) tt
      the_table-DistinctKeys nothing_failed

not_a_miss : startswith miss rating ≡ false
unfolding startswith
not_a_miss = refl

failed-unchanged_example :
    (unchanged 8 rating
      (some 7500000000)
      (load (save 5 (fail 8 rating the_state) the_table).1 5 the_plan (days 2))).1
    ≡ (unchanged 8 rating (some 7500000000) (load the_table 5 the_plan (days 2))).1
failed-unchanged_example =
    failed-unchanged the_state the_table 5 8 rating (some 7500000000) the_plan (days 2) tt
      the_table-DistinctKeys not_a_miss nothing_failed
