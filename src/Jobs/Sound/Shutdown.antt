-- ===== src/Jobs/Sound/Shutdown.antt =====
-- `shutdown` of src/workers/job_manager.py, job by job, and that it keeps the invariant.
use mqs_backtest_visualizer.Prelude.{
  ℕ, ◌≡◌, refl, true, false, Option, none, some, List, [], ◌∷◌, arith, if◌then◌else◌, Bool-cases,
  inl, inr, sym, ◌∙◌, subst, if_split,
}
use mqs_backtest_visualizer.Prelude.Dict.{
  Dict, lookup, Holds, map_values, lookup-map_values, map_values-Unique, map_option,
}
use mqs_backtest_visualizer.Jobs.State.{Job, SavedReport, Database, Manager, interrupted, is_some}
use mqs_backtest_visualizer.Jobs.Callbacks.{Backend, fail, end_failed}
use mqs_backtest_visualizer.Jobs.Manager.{is_finished, shutdown_jobs, shutdown, request_cancel}
use mqs_backtest_visualizer.Jobs.Invariant.{SoundJob, reports-settle}
use mqs_backtest_visualizer.Jobs.Sound.Base.{Sound}

-- What `shutdown` does to a job.
abbrev pub stopped_job : ℕ → Job → Job
stopped_job now job =
    if is_finished job
    then job
    else if is_some job.future
    then request_cancel job
    else fail now interrupted (request_cancel job)

pub jobs-shutdown_jobs :
    (backend : Backend) (now : ℕ) (jobs : Dict Job) (db : Database)
    → (shutdown_jobs backend now jobs db).0 ≡ map_values (stopped_job now) jobs
unfolding shutdown_jobs end_failed
jobs-shutdown_jobs backend now [] db = refl
jobs-shutdown_jobs backend now ((key, job) ∷ jobs) db = elim (Bool-cases (is_finished job)) [
  | inl over ↦ rw (over, jobs-shutdown_jobs backend now jobs db)
  | inr u ↦ elim (Bool-cases (is_some job.future)) [
    | inl f ↦ rw (u, f, jobs-shutdown_jobs backend now jobs db)
    | inr f ↦ rw (u, f, jobs-shutdown_jobs backend now jobs _)
  ]
]

pub reports-shutdown_jobs :
    (backend : Backend) (now : ℕ) (jobs : Dict Job) (db : Database)
    → (shutdown_jobs backend now jobs db).1.reports ≡ db.reports
unfolding shutdown_jobs end_failed
reports-shutdown_jobs backend now [] db = refl
reports-shutdown_jobs backend now ((key, job) ∷ jobs) db = elim (Bool-cases (is_finished job)) [
  | inl over ↦ rw (over, reports-shutdown_jobs backend now jobs db)
  | inr u ↦ elim (Bool-cases (is_some job.future)) [
    | inl f ↦ rw (u, f, reports-shutdown_jobs backend now jobs db)
    | inr f ↦
        rw (u, f, reports-shutdown_jobs backend now jobs _)
          (reports-settle backend.settles job.spec false db)
  ]
]

stopped_job-SoundJob :
    (reports : List SavedReport) (key now : ℕ) (job : Job)
    → SoundJob reports key job
    → SoundJob reports key (stopped_job now job)
unfolding fail
stopped_job-SoundJob reports key now job h =
    if_split (SoundJob reports key) (is_finished job) (λ over. h)
      λ u. if_split (SoundJob reports key) (is_some job.future) (λ f. asked u f) (λ f. given_up u f)
  where
    asked :
        is_finished job ≡ false
        → is_some job.future ≡ true
        → SoundJob reports key (request_cancel job)
    asked u f = ground arith

    given_up :
        is_finished job ≡ false
        → is_some job.future ≡ false
        → SoundJob reports key (fail now interrupted (request_cancel job))
    given_up u f = ground arith

map_values-Holds :
    (P : ℕ → Job → Type 0) (f : Job → Job) (jobs : Dict Job)
    → ((k : ℕ) (v : Job) → P k v → P k (f v))
    → Holds P jobs
    → Holds P (map_values f jobs)
map_values-Holds P f jobs keeps h k v e =
    found (lookup k jobs) refl (sym (lookup-map_values f k jobs) ∙ e)
  where
    found : (o : Option Job) → lookup k jobs ≡ o → map_option f o ≡ some v → P k v
    found none l q = cc
    found (some w) l q = let it : f w ≡ v = cc in subst (λ j. P k j) it (keeps k w (h k w l))

pub shutdown-Sound : (backend : Backend) (m : Manager) → Sound m → Sound (shutdown backend m)
unfolding shutdown
shutdown-Sound backend m h = record {
  unique =
      rw (jobs-shutdown_jobs backend m.now m.jobs m.db)
        (map_values-Unique (stopped_job m.now) m.jobs h.unique);
  each =
      rw
        (
          jobs-shutdown_jobs backend m.now m.jobs m.db,
          reports-shutdown_jobs backend m.now m.jobs m.db,
        )
        (map_values-Holds (SoundJob m.db.reports) (stopped_job m.now) m.jobs
          (λ k v s. stopped_job-SoundJob m.db.reports k m.now v s) h.each);
}
