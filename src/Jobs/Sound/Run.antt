-- ===== src/Jobs/Sound/Run.antt =====
-- Every schedule keeps the invariant of the job manager (src/workers/job_manager.py).
use mqs_backtest_visualizer.Prelude.{List, [], ◌∷◌}
use mqs_backtest_visualizer.Jobs.State.{Manager}
use mqs_backtest_visualizer.Jobs.Manager.{live_summaries}
use mqs_backtest_visualizer.Jobs.Schedule.{
  Event, begin_at, progress_at, end_at, step, run, tick, registers, submits, begins, progresses,
  ends, reads, cancels, lists, shuts_down,
}
use mqs_backtest_visualizer.Jobs.Sound.Base.{Sound, prune-Sound}
use mqs_backtest_visualizer.Jobs.Sound.Requests.{
  register-Sound, submit-Sound, cancel-Sound, get_detail-prune,
}
use mqs_backtest_visualizer.Jobs.Sound.Workers.{
  on_job-Sound, begin_at-Sound, progress_at-Sound, end_at-Sound,
}
use mqs_backtest_visualizer.Jobs.Sound.Shutdown.{shutdown-Sound}

-- Every event keeps the invariant.
pub step-Sound : (e : Event) (m : Manager) → Sound m → Sound (step e m)
unfolding step live_summaries
step-Sound (tick n) m h = record { unique = h.unique; each = h.each }
step-Sound (registers spec) m h = register-Sound spec m h
step-Sound (submits backend refused key) m h = submit-Sound backend refused key m h
step-Sound (begins key) m h =
    on_job-Sound key (begin_at key) m h (λ job f e s. begin_at-Sound key m job f h e s)
step-Sound (progresses key pct) m h =
    on_job-Sound key (progress_at key pct) m h
      (λ job f e s. progress_at-Sound key pct m job f h e s)
step-Sound (ends backend outcome key) m h =
    on_job-Sound key (end_at backend outcome key) m h
      (λ job f e s. end_at-Sound backend outcome key m job f h e s)
step-Sound (reads key owner) m h = rw (get_detail-prune key owner m) (prune-Sound m h)
step-Sound (cancels backend key owner) m h = cancel-Sound backend key owner m h
step-Sound (lists owner) m h = prune-Sound m h
step-Sound (shuts_down backend) m h = shutdown-Sound backend m h

-- A sound manager, which lists no key twice and holds sound jobs only, is sound after any schedule.
pub run-Sound : (es : List Event) (m : Manager) → Sound m → Sound (run es m)
unfolding run
run-Sound [] m h = h
run-Sound (e ∷ es) m h = run-Sound es (step e m) (step-Sound e m h)
