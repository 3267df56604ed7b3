-- ===== src/PushState/Plan.antt =====
-- When a push trusts what was stored, and how far back an interrupted one is resumed.
use scrob.Prelude.{
  ℕ, ◌+◌, ◌-◌, ◌≤◌, ◌<◌, ◌≡◌, refl, Bool, true, false, ◌&&◌, Option, none, some, List, [], ◌∷◌,
  arith, filter, any, max, ltb, nat_eq, All, All-map,
}
use scrob.Prelude.Clock.{Time}
use scrob.PushState.{
  SyncJob, full_reconcile_interval, is_full_push, is_job_of, is_interrupted, is_within_interval,
  latest, first_created, or_min, plan_push,
}

within-latest :
    (p : SyncJob → Bool) (now : Time) (jobs : List SyncJob)
    → is_within_interval now (latest (filter p jobs))
      ≡ any (λ j. p j && ltb now (j.updated_at + full_reconcile_interval)) jobs
unfolding latest
within-latest p now [] = refl
within-latest p now (j ∷ jobs) = ground (arith, within-latest p now jobs)

-- A push trusts all that is stored exactly if it is a scheduled one and a full push of the
-- connection was completed less than seven days ago.
pub plan-use_state :
    (jobs : List SyncJob) (c : ℕ) (incremental : Bool) (now : Time)
    → (plan_push jobs c incremental now).use_state ≡ (
        incremental
        && any (λ j. is_full_push c j && ltb now (j.updated_at + full_reconcile_interval)) jobs)
unfolding plan_push
plan-use_state jobs c false now = refl
plan-use_state jobs c true now = ground (arith, within-latest (is_full_push c) now jobs)

latest-max :
    (p : SyncJob → Bool) (jobs : List SyncJob) (bound : Time)
    → or_min (latest (filter p jobs)) ≤ bound
    → All (λ j. p j ≡ true → j.updated_at ≤ bound) jobs
unfolding latest
latest-max p [] bound h = tt
latest-max p (j ∷ jobs) bound h = ((λ e. ground arith), latest-max p jobs bound (ground arith))

abbrev is_after : Time → Option Time → Bool
is_after start none = true
is_after start (some t) = ltb start t

first_created-after :
    (start : Time) (q : SyncJob → Bool) (jobs : List SyncJob)
    → is_after start (first_created (filter (λ j. q j && ltb start j.created_at) jobs)) ≡ true
unfolding first_created
first_created-after start q [] = refl
first_created-after start q (j ∷ jobs) = ground (arith, first_created-after start q jobs)

-- A resumed push goes back to a moment within the last seven days, and after the end of every
-- full push of the connection that was completed.
pub plan-resume :
    (jobs : List SyncJob) (c : ℕ) (incremental : Bool) (now since : Time)
    → (plan_push jobs c incremental now).resume_since ≡ some since
    → (now < since + full_reconcile_interval)
      × All (λ j. is_full_push c j ≡ true → j.updated_at < since) jobs
unfolding plan_push
plan-resume jobs c false now since h = ground arith
plan-resume jobs c true now since h =
    let last = latest (filter (is_full_push c) jobs) in
    let start = max (or_min last) (now - full_reconcile_interval) in
    let q : SyncJob → Bool = λ j. is_job_of c j && is_interrupted j.status in
    let after = first_created-after start q jobs in
    let older : start < since = ground arith in
    (
      omega (arith, older),
      All-map jobs (λ j f e. omega (arith, f e, older))
          (latest-max (is_full_push c) jobs start (omega arith)),
    )
