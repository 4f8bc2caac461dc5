-- ===== src/Jobs/State.antt =====
-- The state that src/workers/job_manager.py keeps: the jobs, what a worker shares with the manager, and
-- the two tables that a job's end writes to. Keys, owners and times are numbers; a report's body,
-- which the manager passes on unread, is a number, too.
use mqs_backtest_visualizer.Prelude.{ℕ, Bool, true, false, Option, none, some, List, ◌++◌, ◌==◌}
use mqs_backtest_visualizer.Prelude.Dict.{Dict}
use mqs_backtest_visualizer.Prelude.Text.{Text, codes, take}

pub data Purpose : Type 0 where
  user validation : Purpose

-- `RunSpec`, as far as the manager reads it
pub record Spec : Type 0 where
  pub id : ℕ
  pub owner : Option ℕ
  pub purpose : Purpose
  pub strategy_key : ℕ
  pub created_at : ℕ

pub data Status : Type 0 where
  queued running completed failed : Status

-- the dictionary that the worker process and the manager share
pub record Shared : Type 0 where
  pub status : Status
  pub progress_pct : ℕ
  pub cancel_requested : Bool
  pub error_message : Option Text

-- The life of a `concurrent.futures` future: only a pending one can be cancelled.
pub data Future : Type 0 where
  pending executing done : Future

-- `BacktestDetail`: a run's status, and its report once there is one
pub record Detail : Type 0 where
  pub status : Status
  pub progress : ℕ
  pub error : Option Text
  pub report : Option ℕ

pub record Job : Type 0 where
  pub spec : Spec
  pub state : Shared
  pub future : Option Future
  pub finished_at : Option ℕ
  pub detail : Option Detail
  pub saved : Bool

-- a row of `app.backtest_reports`
pub record SavedReport : Type 0 where
  pub id : ℕ
  pub owner : ℕ
  pub body : ℕ

pub data Kind : Type 0 where
  builtin uploaded : Kind

pub data StrategyStatus : Type 0 where
  validating active failed_validation : StrategyStatus

-- a row of `app.strategies`
pub record Strategy : Type 0 where
  pub key : ℕ
  pub kind : Kind
  pub status : StrategyStatus
  pub enabled : Bool
  pub validation_job : Option ℕ

pub record Database : Type 0 where
  pub reports : List SavedReport
  pub strategies : List Strategy

-- The manager; `running` says that the pool was started and not closed. `now` is the clock.
pub record Manager : Type 0 where
  pub pool : Bool
  pub closed : Bool
  pub jobs : Dict Job
  pub now : ℕ
  pub db : Database

pub data Message : Type 0 where
  cancelled_by_user interrupted : Message
  could_not_queue worker_error persistence_failed : Text → Message

-- `str(message)[:2000]`
unfoldable pub clip : Message → Text
clip cancelled_by_user = codes "Cancelled by user"
clip interrupted = codes "Interrupted by server shutdown"
clip (could_not_queue e) = take 2000 (codes "Could not queue the backtest: " ++ e)
clip (worker_error e) = take 2000 e
clip (persistence_failed e) = take 2000 (codes "Backtest or report persistence failed: " ++ e)

abbrev pub is_some {ℓ} : {A : Type ℓ} → Option A → Bool
is_some none = false
is_some (some a) = true

-- `spec.owner_id == owner_id`
abbrev pub owner_is : Option ℕ → Option ℕ → Bool
owner_is none none = true
owner_is (some a) (some b) = a == b
owner_is _ _ = false

-- `spec.empty_detail(status, progress, error)`
abbrev pub empty_detail : Status → ℕ → Option Text → Detail
empty_detail status progress error = record {
  status = status;
  progress = progress;
  error = error;
  report = none;
}
