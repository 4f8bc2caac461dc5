-- ===== src/Jobs/Fate/Events.antt =====
-- The course of a job through every event of a schedule (src/workers/job_manager.py).
use mqs_backtest_visualizer.Prelude.{
  ℕ, ◌≡◌, refl, Bool, true, false, Option, none, some, arith, ◌==◌, not, Bool-cases, Option-cases,
  inl, inr, List, if_split, sym, ◌∙◌, subst, ap,
}
use mqs_backtest_visualizer.Prelude.Dict.{
  Dict, lookup, erase, lookup-erase_ne, lookup-erase_self, Unique, map_option, lookup-map_values,
}
use mqs_backtest_visualizer.Jobs.State.{
  Job, SavedReport, Manager, Future, pending, executing, done, is_some, owner_is,
}
use mqs_backtest_visualizer.Jobs.Callbacks.{Outcome, Backend, has_report, fail}
use mqs_backtest_visualizer.Jobs.Manager.{
  CancelReply, is_finished, prune, put, finish, cancel_job, cancel, live_summaries, shutdown,
}
use mqs_backtest_visualizer.Jobs.Schedule.{
  Event, tick, registers, submits, begins, progresses, ends, reads, cancels, lists, shuts_down,
  begin_job, begin_at, progress_at, may_end, end_at, on_job, step,
}
use mqs_backtest_visualizer.Jobs.Invariant.{SoundJob}
use mqs_backtest_visualizer.Jobs.Sound.Base.{Sound, prune-Sound}
use mqs_backtest_visualizer.Jobs.Sound.Requests.{get_detail-prune}
use mqs_backtest_visualizer.Jobs.Sound.Shutdown.{
  stopped_job, jobs-shutdown_jobs, reports-shutdown_jobs,
}
use mqs_backtest_visualizer.Jobs.Fate.Base.{
  Advance, Fate, stays, forgotten, advances, put-Fate, on_done-Advance,
}
use mqs_backtest_visualizer.Jobs.Fate.Steps.{
  is_registration, Course, same-Course, prune-Course, after_prune, unsaved, register-Course,
  submit-Course, cancel_live-Fate, reports-prune,
}
use mqs_backtest_visualizer.Jobs.Fate.Reports.{on_done-reports}

module _ (fresh : Bool) (k : ℕ) where
  erase-Fate :
      (key : ℕ) (job : Job) (jobs : Dict Job)
      → Unique jobs
      → lookup key jobs ≡ some job
      → is_finished job ≡ true
      → Fate fresh (lookup k jobs) (lookup k (erase key jobs))
  erase-Fate key job jobs un found over = elim (Bool-cases (k == key)) [
    | inl same ↦
        let at : k ≡ key = ground arith in
        rw (at, lookup-erase_self key jobs un, found) (forgotten over)
    | inr other ↦ rw (lookup-erase_ne key k jobs other) stays
  ]

  cancel_job-Course :
      (backend : Backend) (key : ℕ) (job : Job) (m : Manager)
      → Sound m
      → lookup key (prune m).jobs ≡ some job
      → Course fresh k m (cancel_job backend key job (prune m)).0
  unfolding cancel_job
  cancel_job-Course backend key job m h found =
      let p = prune-Sound m h in
      if_split {A = Manager × CancelReply} (λ r. Course fresh k m r.0) job.saved
        (λ kept. prune-Course fresh k m h)
        λ unkept.
          if_split {A = Manager × CancelReply} (λ r. Course fresh k m r.0) (is_finished job)
            (λ over.
              after_prune fresh k m _ h (erase-Fate key job (prune m).jobs p.unique found over)
                (ap (has_report k) (reports-prune m)))
            (λ u.
              let (f, r) =
                cancel_live-Fate fresh k backend key job (prune m) job.future found u unkept in
              after_prune fresh k m _ h f (r ∙ ap (has_report k) (reports-prune m)))

  cancel-Course :
      (backend : Backend) (key : ℕ) (owner : Option ℕ) (m : Manager)
      → Sound m
      → Course fresh k m (cancel backend key owner m).0
  unfolding cancel
  cancel-Course backend key owner m h = elim (Option-cases (lookup key (prune m).jobs)) [
    | inl missing ↦ rw (missing, cancel) (prune-Course fresh k m h)
    | inr (job, found) ↦
        rw (found, cancel)
          (if_split {A = Manager × CancelReply} (λ r. Course fresh k m r.0)
            (not (owner_is job.spec.owner owner)) (λ stranger. prune-Course fresh k m h)
            (λ own. cancel_job-Course backend key job m h found))
  ]

  on_job-Course :
      (key : ℕ) (act : Job → Manager → Option Future → Manager) (m : Manager)
      → ((job : Job) (f : Option Future)
          → job.future ≡ f
          → lookup key m.jobs ≡ some job
          → Course fresh k m (act job m f))
      → Course fresh k m (on_job key act m)
  unfolding on_job
  on_job-Course key act m acts = elim (Option-cases (lookup key m.jobs)) [
    | inl missing ↦ rw (missing, on_job) (same-Course fresh k m)
    | inr (job, found) ↦ rw (found, on_job) (acts job job.future refl found)
  ]

  one_job :
      (key : ℕ) (job next : Job) (m : Manager)
      → lookup key m.jobs ≡ some job
      → is_finished job ≡ false
      → Advance job next
      → Course fresh k m (put key next m)
  one_job key job next m found u a = record {
    fate = put-Fate fresh k key job next m found u a;
    reports = inl refl;
  }

  begin_at-Course :
      (key : ℕ) (m : Manager) (job : Job) (f : Option Future)
      → Sound m
      → job.future ≡ f
      → lookup key m.jobs ≡ some job
      → Course fresh k m (begin_at key job m f)
  unfolding begin_at begin_job
  begin_at-Course key m job (some pending) h e found =
      let s = h.each key job found in one_job key job _ m found (ground arith) (ground arith)
  begin_at-Course key m job f h e found = same-Course fresh k m

  progress_at-Course :
      (key pct : ℕ) (m : Manager) (job : Job) (f : Option Future)
      → Sound m
      → job.future ≡ f
      → lookup key m.jobs ≡ some job
      → Course fresh k m (progress_at key pct job m f)
  unfolding progress_at
  progress_at-Course key pct m job (some executing) h e found =
      let s = h.each key job found in one_job key job _ m found (ground arith) (ground arith)
  progress_at-Course key pct m job f h e found = same-Course fresh k m

  finish-Course :
      (backend : Backend) (outcome : Outcome) (key : ℕ) (m : Manager) (job : Job)
      → SoundJob m.db.reports key job
      → is_finished job ≡ false
      → lookup key m.jobs ≡ some job
      → Course fresh k m (finish backend outcome key job m)
  unfolding finish
  finish-Course backend outcome key m job s u found =
      let ended = record job { future = some done } in
      let a =
        on_done-Advance backend m.closed m.now outcome ended m.db (unsaved fresh k _ key job s u) in
      record {
        fate = put-Fate fresh k key job _ m found u (through a);
        reports = elim (on_done-reports k backend m.closed m.now outcome ended m.db) [
          | inl same ↦ inl same
          | inr saving ↦ inr (record {
            open_manager = saving.open_manager;
            job = job;
            found = subst (λ i. lookup i m.jobs ≡ some job) (sym s.own_key ∙ saving.own_id) found;
            wanted = saving.wanted;
          })
        ];
      }
    where
      through : {next : Job} → Advance (record job { future = some done }) next → Advance job next
      through a = ground arith

  end_at-Course :
      (backend : Backend) (outcome : Outcome) (key : ℕ) (m : Manager) (job : Job)
      (f : Option Future)
      → Sound m
      → job.future ≡ f
      → lookup key m.jobs ≡ some job
      → Course fresh k m (end_at backend outcome key job m f)
  unfolding end_at
  end_at-Course backend outcome key m job none h e found = same-Course fresh k m
  end_at-Course backend outcome key m job (some f) h e found =
      let s = h.each key job found in
      if_split (Course fresh k m) (may_end f outcome)
        (λ over. finish-Course backend outcome key m job s (unfinished f e over s) found)
        (λ stays. same-Course fresh k m)
    where
      unfinished :
          (f : Future)
          → job.future ≡ some f
          → may_end f outcome ≡ true
          → SoundJob m.db.reports key job
          → is_finished job ≡ false
      unfinished pending e over s = ground arith
      unfinished executing e over s = ground arith
      unfinished done e over s = cc

  stopped-Fate :
      (reports : List SavedReport) (key now : ℕ) (job : Job)
      → SoundJob reports key job
      → Fate fresh (some job) (some (stopped_job now job))
  unfolding fail
  stopped-Fate reports key now job s =
      if_split (λ j. Fate fresh (some job) (some j)) (is_finished job) (λ over. stays)
        λ u.
          if_split (λ j. Fate fresh (some job) (some j)) (is_some job.future)
            (λ f. advances u (ground arith)) (λ f. advances u (ground arith))

  shutdown-Course :
      (backend : Backend) (m : Manager) → Sound m → Course fresh k m (shutdown backend m)
  unfolding shutdown
  shutdown-Course backend m h = record {
    fate =
        rw
          (
            jobs-shutdown_jobs backend m.now m.jobs m.db,
            lookup-map_values (stopped_job m.now) k m.jobs,
          )
          (held (lookup k m.jobs) refl);
    reports = inl (ap (has_report k) (reports-shutdown_jobs backend m.now m.jobs m.db));
  }
    where
      held :
          (o : Option Job) → lookup k m.jobs ≡ o → Fate fresh o (map_option (stopped_job m.now) o)
      held none e = stays
      held (some job) e = stopped-Fate m.db.reports k m.now job (h.each k job e)

  pub step-Course :
      (e : Event) (m : Manager)
      → Sound m
      → is_registration k e ≡ fresh
      → Course fresh k m (step e m)
  unfolding step live_summaries
  step-Course (tick n) m h r = record { fate = stays; reports = inl refl }
  step-Course (registers spec) m h r = register-Course fresh k spec m h r
  step-Course (submits backend refused key) m h r = submit-Course fresh k backend refused key m h
  step-Course (begins key) m h r =
      on_job-Course key (begin_at key) m (λ job f e found. begin_at-Course key m job f h e found)
  step-Course (progresses key pct) m h r =
      on_job-Course key (progress_at key pct) m
        (λ job f e found. progress_at-Course key pct m job f h e found)
  step-Course (ends backend outcome key) m h r =
      on_job-Course key (end_at backend outcome key) m
        (λ job f e found. end_at-Course backend outcome key m job f h e found)
  step-Course (reads key owner) m h r = rw (get_detail-prune key owner m) (prune-Course fresh k m h)
  step-Course (cancels backend key owner) m h r = cancel-Course backend key owner m h
  step-Course (lists owner) m h r = prune-Course fresh k m h
  step-Course (shuts_down backend) m h r = shutdown-Course backend m h
