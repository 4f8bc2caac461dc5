-- ===== src/Jobs/Manager.antt =====
-- The operations of `JobManager` (src/workers/job_manager.py). Each returns the new state; a lock is
-- held through each one, so that they are the steps that interleave.
use mqs_backtest_visualizer.Prelude.{
  ℕ, ◌+◌, Bool, true, false, Option, none, some, List, [], ◌∷◌, leb, ltb, if◌then◌else◌, ◌&&◌, ◌||◌,
  not, Result, ok, err,
}
use mqs_backtest_visualizer.Prelude.Dict.{Dict, lookup, insert, erase, keep}
use mqs_backtest_visualizer.Prelude.Sort.{sort}
use mqs_backtest_visualizer.Prelude.Text.{Text}
use mqs_backtest_visualizer.Jobs.State.{
  Purpose, user, validation, Spec, Status, queued, Future, pending, done, Detail, Job, SavedReport,
  Strategy, StrategyStatus, active, failed_validation, validating, Database, Manager,
  cancelled_by_user, interrupted, could_not_queue, empty_detail, is_some, owner_is,
}
use mqs_backtest_visualizer.Jobs.Callbacks.{
  Outcome, cancelled, Backend, fail, end_failed, on_done, has_report, is_uploaded,
}

abbrev pub terminal_ttl_seconds : ℕ
terminal_ttl_seconds = 3600

abbrev pub is_finished : Job → Bool
is_finished job = is_some job.finished_at

-- the property `running`
abbrev pub is_running : Manager → Bool
is_running m = m.pool && not m.closed

-- `start`
unfoldable pub start : Manager → Manager
start m = if is_running m then m else record m { pool = true; closed = false }

-- `now - job.finished_at > TERMINAL_TTL_SECONDS`
abbrev pub expired : ℕ → Job → Bool
expired now job = elim job.finished_at [
  | none ↦ false
  | some t ↦ ltb (t + terminal_ttl_seconds) now
]

-- `_prune`
unfoldable pub prune : Manager → Manager
prune m = record m { jobs = keep (λ job. not (expired m.now job)) m.jobs }

abbrev pub put : ℕ → Job → Manager → Manager
put key job m = record m { jobs = insert key job m.jobs }

pub data ManagerError : Type 0 where
  needs_owner not_running already_registered unknown_job already_finished : ManagerError
  queue_failed : Text → ManagerError

abbrev pub new_job : Spec → Job
new_job spec = record {
  spec = spec;
  state = record {
    status = queued;
    progress_pct = 0;
    cancel_requested = false;
    error_message = none;
  };
  future = none;
  finished_at = none;
  detail = none;
  saved = false;
}

-- `spec.purpose == "user" and spec.owner_id is None`
abbrev pub lacks_owner : Spec → Bool
lacks_owner spec = elim spec.purpose [ user ↦ not (is_some spec.owner) | validation ↦ false ]

unfoldable pub register : Spec → Manager → Manager × Result ManagerError (Unit {0})
register spec m =
    if lacks_owner spec
    then (m, err needs_owner)
    else if not (is_running m)
    then (m, err not_running)
    else if is_some (lookup spec.id (prune m).jobs)
    then (prune m, err already_registered)
    else (put spec.id (new_job spec) (prune m), ok tt)

-- The call of `pool.submit` in `submit`; `refused` is the exception that it raises, if it does.
unfoldable pub submit_new :
    Backend → ℕ → Job → Manager → Option Text → Manager × Result ManagerError Future
submit_new backend key job m none = (put key (record job { future = some pending }) m, ok pending)
submit_new backend key job m (some e) =
    let ending = end_failed backend m.now (could_not_queue e) job m.db in
    (record (put key ending.job m) { db = ending.db }, err (queue_failed e))

unfoldable pub submit_job :
    Backend → Option Text → ℕ → Job → Manager → Option Future → Manager × Result ManagerError Future
submit_job backend refused key job m (some f) = (m, ok f)
submit_job backend refused key job m none =
    if is_finished job then (m, err already_finished) else submit_new backend key job m refused

unfoldable pub submit : Backend → Option Text → ℕ → Manager → Manager × Result ManagerError Future
submit backend refused key m = elim (lookup key (prune m).jobs) [
  | none ↦ (prune m, err unknown_job)
  | some job ↦
      if not (is_running m)
      then (prune m, err unknown_job)
      else submit_job backend refused key job (prune m) job.future
]

unfoldable pub get_detail : ℕ → Option ℕ → Manager → Manager × Option Detail
get_detail key owner m = elim (lookup key (prune m).jobs) [
  | none ↦ (prune m, none)
  | some job ↦
      if not (owner_is job.spec.owner owner)
      then (prune m, none)
      else if job.saved
      then (prune m, none)
      else elim job.detail [
        | some d ↦ (prune m, some d)
        | none ↦ (
          prune m,
          some (empty_detail job.state.status job.state.progress_pct job.state.error_message),
        )
      ]
]

-- The callback of a job whose future is done: `_on_done` under the job's lock.
unfoldable pub finish : Backend → Outcome → ℕ → Job → Manager → Manager
finish backend outcome key job m =
    let ending = on_done backend m.closed m.now outcome (record job { future = some done }) m.db in
    record (put key ending.job m) { db = ending.db }

pub data CancelReply : Type 0 where
  not_found saved deleted cancel_requested : CancelReply

abbrev pub request_cancel : Job → Job
request_cancel job = record job { state = record job.state { cancel_requested = true } }

-- `job.future.cancel()` after the flag is set: a pending future is cancelled, and its callback runs at
-- once under the same lock; one that executes or is done goes on.
unfoldable pub cancel_live : Backend → ℕ → Job → Manager → Option Future → Manager
cancel_live backend key job m none = put key (fail m.now cancelled_by_user (request_cancel job)) m
cancel_live backend key job m (some pending) = finish backend cancelled key (request_cancel job) m
cancel_live backend key job m (some f) = put key (request_cancel job) m

-- The part of `cancel` under the job's lock.
unfoldable pub cancel_job : Backend → ℕ → Job → Manager → Manager × CancelReply
cancel_job backend key job m =
    if job.saved
    then (m, saved)
    else if is_finished job
    then (record m { jobs = erase key m.jobs }, deleted)
    else (cancel_live backend key job m job.future, cancel_requested)

unfoldable pub cancel : Backend → ℕ → Option ℕ → Manager → Manager × CancelReply
cancel backend key owner m = elim (lookup key (prune m).jobs) [
  | none ↦ (prune m, not_found)
  | some job ↦
      if not (owner_is job.spec.owner owner)
      then (prune m, not_found)
      else cancel_job backend key job (prune m)
]

-- a line of the live history
pub record Summary : Type 0 where
  pub id : ℕ
  pub owner : Option ℕ
  pub status : Status
  pub progress : ℕ
  pub created_at : ℕ

abbrev pub is_user : Purpose → Bool
is_user user = true
is_user validation = false

abbrev pub is_live : Option ℕ → Job → Bool
is_live owner job =
    owner_is job.spec.owner owner && is_user job.spec.purpose && not (is_finished job || job.saved)

abbrev pub summary : ℕ → Job → Summary
summary key job = record {
  id = job.spec.id;
  owner = job.spec.owner;
  status = job.state.status;
  progress = job.state.progress_pct;
  created_at = job.spec.created_at;
}

abbrev pub live_in : Option ℕ → Dict Job → List Summary
live_in owner [] = []
live_in owner ((key, job) ∷ jobs) =
    if is_live owner job then summary key job ∷ live_in owner jobs else live_in owner jobs

-- `sort(key=created_at, reverse=True)`, which keeps the order of equal keys
abbrev pub newer : Summary → Summary → Bool
newer a b = leb b.created_at a.created_at

unfoldable pub live_summaries : Option ℕ → Manager → Manager × List Summary
live_summaries owner m = (prune m, sort newer (live_in owner (prune m).jobs))

unfoldable pub submitted_run_ids : Dict Job → List ℕ
submitted_run_ids [] = []
submitted_run_ids ((key, job) ∷ jobs) =
    if is_finished job then submitted_run_ids jobs else key ∷ submitted_run_ids jobs

-- The loop of `shutdown` over the jobs. Each unfinished job is asked to stop; one that was never
-- submitted fails here, and the others by the callbacks of their futures.
unfoldable pub shutdown_jobs : Backend → ℕ → Dict Job → Database → Dict Job × Database
shutdown_jobs backend now [] db = ([], db)
shutdown_jobs backend now ((key, job) ∷ jobs) db =
    let skip = shutdown_jobs backend now jobs db in
    let asked = request_cancel job in
    let ending = end_failed backend now interrupted asked db in
    let failing = shutdown_jobs backend now jobs ending.db in
    if is_finished job
    then ((key, job) ∷ skip.0, skip.1)
    else if is_some job.future
    then ((key, asked) ∷ skip.0, skip.1)
    else ((key, ending.job) ∷ failing.0, failing.1)

unfoldable pub shutdown : Backend → Manager → Manager
unfolding shutdown_jobs
shutdown backend m =
    let (jobs, db) = shutdown_jobs backend m.now m.jobs m.db in
    record m { pool = false; closed = true; jobs = jobs; db = db }

abbrev pub is_validating : StrategyStatus → Bool
is_validating validating = true
is_validating _ = false

-- The row that `_recover_validation_outcomes` leaves: an interrupted validation passed exactly if its
-- report was saved.
unfoldable pub recover_row : List SavedReport → Strategy → Strategy
recover_row reports row = elim row.validation_job [
  | none ↦ row
  | some job ↦
      if is_uploaded row.kind && is_validating row.status
      then record row {
        status = if has_report job reports then active else failed_validation;
        enabled = has_report job reports;
      }
      else row
]

unfoldable pub recover_rows : List SavedReport → List Strategy → List Strategy
unfolding recover_row
recover_rows reports [] = []
recover_rows reports (row ∷ rows) = recover_row reports row ∷ recover_rows reports rows

-- `_recover_validation_outcomes`
unfoldable pub recover_validation_outcomes : Database → Database
unfolding recover_rows
recover_validation_outcomes db = record db { strategies = recover_rows db.reports db.strategies }
