-- ===== src/Jobs/Callbacks.antt =====
-- How a job ends in src/workers/job_manager.py: `_fail`, `_settle_validation` and `_on_done`, with what
-- they write to the database.
use mqs_backtest_visualizer.Prelude.{
  ℕ, Bool, true, false, Option, none, some, List, [], ◌∷◌, ◌==◌, if◌then◌else◌, ◌&&◌, ◌||◌, Result,
  ok, err,
}
use mqs_backtest_visualizer.Prelude.Text.{Text}
use mqs_backtest_visualizer.Jobs.State.{
  user, validation, Spec, completed, failed, Job, SavedReport, Kind, builtin, uploaded, active,
  failed_validation, Strategy, Database, Message, cancelled_by_user, interrupted, worker_error,
  persistence_failed, clip, empty_detail,
}

-- How the worker's future ends: cancelled before it ran, by an exception, with an error or a report,
-- or with a report that `BacktestDetail` refuses.
pub data Outcome : Type 0 where
  cancelled : Outcome
  raised error : Text → Outcome
  report : ℕ → Outcome
  bad_report : Text → Outcome

-- What the database does when the callback runs: an error that stops the write of a report, how it
-- words a taken key, and whether the strategy's row can be written.
pub record Backend : Type 0 where
  pub duplicate_key : Text
  pub save_error : Option Text
  pub settles : Bool

-- `_fail`
unfoldable pub fail : ℕ → Message → Job → Job
fail now message job = record job {
  detail = some (empty_detail failed 0 (some (clip message)));
  state = record job.state { status = failed; error_message = some (clip message) };
  finished_at = some now;
}

-- the row that the verdict of a validation run leaves
abbrev pub verdict : Spec → Bool → Strategy → Strategy
verdict spec passed row = record row {
  status = if passed then active else failed_validation;
  enabled = passed;
  validation_job = some spec.id;
}

abbrev pub is_uploaded : Kind → Bool
is_uploaded builtin = false
is_uploaded uploaded = true

-- `UPDATE app.strategies SET ... WHERE key = ... AND kind = 'user'`
abbrev pub update_strategies : Spec → Bool → List Strategy → List Strategy
update_strategies spec passed [] = []
update_strategies spec passed (row ∷ rows) =
    (if (row.key == spec.strategy_key) && is_uploaded row.kind
      then verdict spec passed row
      else row)
    ∷ update_strategies spec passed rows

-- `_settle_validation`: a database error is logged and swallowed
unfoldable pub settle_validation : Bool → Spec → Bool → Database → Database
settle_validation settles spec passed db = elim spec.purpose [
  | user ↦ db
  | validation ↦
      if settles then record db { strategies = update_strategies spec passed db.strategies } else db
]

abbrev pub has_report : ℕ → List SavedReport → Bool
has_report id [] = false
has_report id (r ∷ rs) = (r.id == id) || has_report id rs

-- `reports.save`: an insert, which a taken primary key or a failing database refuses
unfoldable pub save : Backend → ℕ → ℕ → ℕ → Database → Result Text Database
save backend id owner body db = elim backend.save_error [
  | some e ↦ err e
  | none ↦
      if has_report id db.reports
      then err backend.duplicate_key
      else ok (record db { reports = record { id = id; owner = owner; body = body } ∷ db.reports })
]

abbrev pub is_cancelled : Outcome → Bool
is_cancelled cancelled = true
is_cancelled _ = false

-- The state that a job's end leaves: the job, and the database.
pub record Ending : Type 0 where
  pub job : Job
  pub db : Database

unfoldable pub end_failed : Backend → ℕ → Message → Job → Database → Ending
end_failed backend now message job db = record {
  job = fail now message job;
  db = settle_validation backend.settles job.spec false db;
}

unfoldable pub end_completed : Backend → ℕ → Job → Database → Ending
end_completed backend now job db = record {
  job = record job {
    state = record job.state { status = completed; progress_pct = 100 };
    finished_at = some now;
  };
  db = settle_validation backend.settles job.spec true db;
}

-- A report is saved under its owner; without an owner it is kept with the job.
unfoldable pub end_reported : Backend → ℕ → ℕ → Job → Database → Option ℕ → Ending
end_reported backend now body job db none =
    end_completed backend now
      (record job {
        detail =
            some (record { status = completed; progress = 100; error = none; report = some body });
      })
      db
end_reported backend now body job db (some owner) = elim (save backend job.spec.id owner body db) [
  | err e ↦ end_failed backend now (persistence_failed e) job db
  | ok db' ↦ end_completed backend now (record job { saved = true }) db'
]

-- the part of `_on_done` that looks at `future.result()`
unfoldable pub end_with : Backend → ℕ → Outcome → Job → Database → Ending
end_with backend now cancelled job db = end_failed backend now cancelled_by_user job db
end_with backend now (raised e) job db = end_failed backend now (persistence_failed e) job db
end_with backend now (bad_report e) job db = end_failed backend now (persistence_failed e) job db
end_with backend now (error e) job db = end_failed backend now (worker_error e) job db
end_with backend now (report body) job db = end_reported backend now body job db job.spec.owner

-- `_on_done`
unfoldable pub on_done : Backend → Bool → ℕ → Outcome → Job → Database → Ending
on_done backend closed now outcome job db =
    if closed || job.state.cancel_requested || is_cancelled outcome
    then end_failed backend now (if closed then interrupted else cancelled_by_user) job db
    else end_with backend now outcome job db
