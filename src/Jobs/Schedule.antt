-- ===== src/Jobs/Schedule.antt =====
-- Schedules of src/workers/job_manager.py: what requests, the clock, the workers and the pool do, one
-- event after another. An event that does not apply changes nothing.
use mqs_backtest_visualizer.Prelude.{
  ℕ, ◌+◌, min, Bool, true, false, Option, none, some, List, [], ◌∷◌, if◌then◌else◌,
}
use mqs_backtest_visualizer.Prelude.Dict.{lookup}
use mqs_backtest_visualizer.Prelude.Text.{Text}
use mqs_backtest_visualizer.Jobs.State.{
  Spec, running, Future, pending, executing, done, Job, Manager,
}
use mqs_backtest_visualizer.Jobs.Callbacks.{Outcome, Backend, is_cancelled}
use mqs_backtest_visualizer.Jobs.Manager.{
  put, register, submit, get_detail, cancel, finish, live_summaries, shutdown,
}

pub data Event : Type 0 where
  tick : ℕ → Event
  registers : Spec → Event
  submits : Backend → Option Text → ℕ → Event
  begins : ℕ → Event
  progresses : ℕ → ℕ → Event
  ends : Backend → Outcome → ℕ → Event
  reads : ℕ → Option ℕ → Event
  cancels : Backend → ℕ → Option ℕ → Event
  lists : Option ℕ → Event
  shuts_down : Backend → Event

-- The pool starts a pending future; the worker writes `running` if nobody has cancelled
-- (`execute_report` of src/workers/report_job.py).
unfoldable pub begin_job : Job → Job
begin_job job =
    if job.state.cancel_requested then record job { future = some executing } else record job {
      future = some executing;
      state = record job.state { status = running; progress_pct = 0 };
    }

-- `JobControl.on_progress`, which keeps 100 for a saved report
abbrev pub progress_job : ℕ → Job → Job
progress_job pct job = record job { state = record job.state { progress_pct = min 99 pct } }

-- A pending future ends only by being cancelled, an executing one in every other way.
abbrev pub may_end : Future → Outcome → Bool
may_end pending outcome = is_cancelled outcome
may_end executing outcome = if is_cancelled outcome then false else true
may_end done outcome = false

unfoldable pub begin_at : ℕ → Job → Manager → Option Future → Manager
begin_at key job m (some pending) = put key (begin_job job) m
begin_at key job m _ = m

unfoldable pub progress_at : ℕ → ℕ → Job → Manager → Option Future → Manager
progress_at key pct job m (some executing) = put key (progress_job pct job) m
progress_at key pct job m _ = m

unfoldable pub end_at : Backend → Outcome → ℕ → Job → Manager → Option Future → Manager
end_at backend outcome key job m none = m
end_at backend outcome key job m (some f) =
    if may_end f outcome then finish backend outcome key job m else m

-- The event of a job, if the manager holds it.
unfoldable pub on_job : ℕ → (Job → Manager → Option Future → Manager) → Manager → Manager
on_job key act m = elim (lookup key m.jobs) [ none ↦ m | some job ↦ act job m job.future ]

unfoldable pub step : Event → Manager → Manager
step (tick n) m = record m { now = m.now + n }
step (registers spec) m = (register spec m).0
step (submits backend refused key) m = (submit backend refused key m).0
step (begins key) m = on_job key (begin_at key) m
step (progresses key pct) m = on_job key (progress_at key pct) m
step (ends backend outcome key) m = on_job key (end_at backend outcome key) m
step (reads key owner) m = (get_detail key owner m).0
step (cancels backend key owner) m = (cancel backend key owner m).0
step (lists owner) m = (live_summaries owner m).0
step (shuts_down backend) m = shutdown backend m

unfoldable pub run : List Event → Manager → Manager
unfolding step
run [] m = m
run (e ∷ es) m = run es (step e m)
