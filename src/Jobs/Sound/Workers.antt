-- ===== src/Jobs/Sound/Workers.antt =====
-- What the workers and the pool do to a job of src/workers/job_manager.py keeps the invariant.
use mqs_backtest_visualizer.Prelude.{
  ℕ, ◌≡◌, refl, true, Option, none, some, arith, Option-cases, inl, inr, if_split,
}
use mqs_backtest_visualizer.Prelude.Dict.{lookup}
use mqs_backtest_visualizer.Jobs.State.{Future, pending, executing, done, Job, Manager}
use mqs_backtest_visualizer.Jobs.Callbacks.{Outcome, Backend}
use mqs_backtest_visualizer.Jobs.Schedule.{
  begin_job, begin_at, progress_at, may_end, end_at, on_job,
}
use mqs_backtest_visualizer.Jobs.Invariant.{SoundJob, Ended}
use mqs_backtest_visualizer.Jobs.Sound.Base.{Sound, put-Sound, finish-Sound}

pub on_job-Sound :
    (key : ℕ) (act : Job → Manager → Option Future → Manager) (m : Manager)
    → Sound m
    → ((job : Job) (f : Option Future)
        → job.future ≡ f
        → SoundJob m.db.reports key job
        → Sound (act job m f))
    → Sound (on_job key act m)
unfolding on_job
on_job-Sound key act m h keeps = elim (Option-cases (lookup key m.jobs)) [
  | inl missing ↦ rw (missing, on_job) h
  | inr (job, found) ↦ rw (found, on_job) (keeps job job.future refl (h.each key job found))
]

pub begin_at-Sound :
    (key : ℕ) (m : Manager) (job : Job) (f : Option Future)
    → Sound m
    → job.future ≡ f
    → SoundJob m.db.reports key job
    → Sound (begin_at key job m f)
unfolding begin_at begin_job
begin_at-Sound key m job (some pending) h e s = put-Sound key _ m h (ground arith)
begin_at-Sound key m job f h e s = h

pub progress_at-Sound :
    (key pct : ℕ) (m : Manager) (job : Job) (f : Option Future)
    → Sound m
    → job.future ≡ f
    → SoundJob m.db.reports key job
    → Sound (progress_at key pct job m f)
unfolding progress_at
progress_at-Sound key pct m job (some executing) h e s = put-Sound key _ m h (ground arith)
progress_at-Sound key pct m job f h e s = h

pub end_at-Sound :
    (backend : Backend) (outcome : Outcome) (key : ℕ) (m : Manager) (job : Job) (f : Option Future)
    → Sound m
    → job.future ≡ f
    → SoundJob m.db.reports key job
    → Sound (end_at backend outcome key job m f)
unfolding end_at
end_at-Sound backend outcome key m job none h e s = h
end_at-Sound backend outcome key m job (some f) h e s =
    if_split Sound (may_end f outcome)
      (λ over. finish-Sound backend outcome key job m h (ended f e over)) (λ stays. h)
  where
    ended :
        (f : Future)
        → job.future ≡ some f
        → may_end f outcome ≡ true
        → Ended key (record job { future = some done })
    ended pending e over = ground arith
    ended executing e over = ground arith
    ended done e over = cc
