-- ===== src/Jobs/Fate/Steps.antt =====
-- What each step of src/workers/job_manager.py does to the job under a key, and to that run's reports.
use mqs_backtest_visualizer.Prelude.{
  ℕ, ◌≡◌, refl, Bool, true, false, Option, none, some, arith, ◌==◌, ◌⊎◌, not, Bool-cases,
  Option-cases, inl, inr, List, if_split, ◌∙◌, ap,
}
use mqs_backtest_visualizer.Prelude.Dict.{lookup, insert, lookup-insert}
use mqs_backtest_visualizer.Prelude.Text.{Text}
use mqs_backtest_visualizer.Jobs.State.{
  Spec, Job, SavedReport, Manager, Future, pending, executing, done, is_some,
}
use mqs_backtest_visualizer.Jobs.Callbacks.{cancelled, Backend, has_report, fail}
use mqs_backtest_visualizer.Jobs.Manager.{
  is_finished, is_running, prune, new_job, lacks_owner, register, submit_new, submit_job, submit,
  request_cancel, finish, cancel_live,
}
use mqs_backtest_visualizer.Jobs.Schedule.{Event, registers}
use mqs_backtest_visualizer.Jobs.Invariant.{SoundJob}
use mqs_backtest_visualizer.Jobs.Sound.Base.{Sound, prune-Sound}
use mqs_backtest_visualizer.Jobs.Fate.Base.{
  Advance, Fate, stays, appears, follows, prune-Fate, put-Fate, end_failed-Advance, on_done-Advance,
}
use mqs_backtest_visualizer.Jobs.Fate.Reports.{reports-end_failed, on_done-reports}

abbrev pub is_registration : ℕ → Event → Bool
is_registration k (registers spec) = spec.id == k
is_registration k _ = false

-- The run of the key is saved by this step: it is wanted, and the manager is open.
pub record SavedNow (k : ℕ) (m : Manager) : Type 0 where
  pub open_manager : m.closed ≡ false
  pub job : Job
  pub found : lookup k m.jobs ≡ some job
  pub wanted : job.state.cancel_requested ≡ false

pub record Course (fresh : Bool) (k : ℕ) (m next : Manager) : Type 0 where
  pub fate : Fate fresh (lookup k m.jobs) (lookup k next.jobs)
  pub reports : (has_report k next.db.reports ≡ has_report k m.db.reports) ⊎ SavedNow k m

pub reports-prune : (m : Manager) → (prune m).db.reports ≡ m.db.reports
unfolding prune
reports-prune m = refl

module _ (fresh : Bool) (k : ℕ) where
  pub same-Course : (m : Manager) → Course fresh k m m
  same-Course m = record { fate = stays; reports = inl refl }

  pub prune-Course : (m : Manager) → Sound m → Course fresh k m (prune m)
  unfolding prune
  prune-Course m h = record { fate = prune-Fate fresh k m h; reports = inl refl }

  -- A step that writes one unfinished job after a prune.
  pub after_prune :
      (m next : Manager)
      → Sound m
      → Fate fresh (lookup k (prune m).jobs) (lookup k next.jobs)
      → has_report k next.db.reports ≡ has_report k m.db.reports
      → Course fresh k m next
  after_prune m next h f e = record { fate = follows (prune-Fate fresh k m h) f; reports = inl e }

  -- What a saved job cannot be: unfinished.
  pub unsaved :
      (reports : List SavedReport) (key : ℕ) (job : Job)
      → SoundJob reports key job
      → is_finished job ≡ false
      → job.saved ≡ false
  unsaved reports key job s u = ground arith

  pub register-Course :
      (spec : Spec) (m : Manager)
      → Sound m
      → (spec.id == k) ≡ fresh
      → Course fresh k m (register spec m).0
  unfolding register
  register-Course spec m h e =
      if_split {A = Manager × _} (λ r. Course fresh k m r.0) (lacks_owner spec)
        (λ bad. same-Course m)
        λ owned.
          if_split {A = Manager × _} (λ r. Course fresh k m r.0) (not (is_running m))
            (λ stopped. same-Course m)
            λ runs.
              if_split {A = Manager × _} (λ r. Course fresh k m r.0)
                (is_some (lookup spec.id (prune m).jobs)) (λ known. prune-Course m h)
                λ new. after_prune m _ h (registered new) (ap (has_report k) (reports-prune m))
    where
      registered :
          is_some (lookup spec.id (prune m).jobs) ≡ false
          → Fate fresh
              (lookup k (prune m).jobs)
              (lookup k (insert spec.id (new_job spec) (prune m).jobs))
      registered new =
          rw (lookup-insert spec.id k (new_job spec) (prune m).jobs)
            (elim (Bool-cases (k == spec.id)) [
              | inl same ↦
                  let at : k ≡ spec.id = ground arith in
                  let gone : lookup spec.id (prune m).jobs ≡ none = ground arith in
                  let own : fresh ≡ true = ground arith in
                  rw same (rw (at, gone) (appears spec own))
              | inr other ↦ rw other stays
            ])

  submit_new-Fate :
      (backend : Backend) (key : ℕ) (job : Job) (m : Manager) (refused : Option Text)
      → lookup key m.jobs ≡ some job
      → is_finished job ≡ false
      → job.saved ≡ false
      → Fate fresh (lookup k m.jobs) (lookup k (submit_new backend key job m refused).0.jobs)
        × ((submit_new backend key job m refused).0.db.reports ≡ m.db.reports)
  unfolding submit_new
  submit_new-Fate backend key job m none found u s =
      (put-Fate fresh k key job _ m found u (ground arith), refl)
  submit_new-Fate backend key job m (some e) found u s = (
    put-Fate fresh k key job _ m found u (end_failed-Advance backend m.now _ job m.db s),
    reports-end_failed backend m.now _ job m.db,
  )

  submit_job-Course :
      (backend : Backend) (refused : Option Text) (key : ℕ) (job : Job) (m : Manager)
      (f : Option Future)
      → Sound m
      → lookup key (prune m).jobs ≡ some job
      → SoundJob (prune m).db.reports key job
      → Course fresh k m (submit_job backend refused key job (prune m) f).0
  unfolding submit_job
  submit_job-Course backend refused key job m (some f) h found s = prune-Course m h
  submit_job-Course backend refused key job m none h found s =
      if_split {A = Manager × _} (λ r. Course fresh k m r.0) (is_finished job)
        (λ over. prune-Course m h)
        λ u.
          let (f, r) =
            submit_new-Fate backend key job (prune m) refused found u (unsaved _ key job s u) in
          after_prune m _ h f (ap (has_report k) (r ∙ reports-prune m))

  pub submit-Course :
      (backend : Backend) (refused : Option Text) (key : ℕ) (m : Manager)
      → Sound m
      → Course fresh k m (submit backend refused key m).0
  unfolding submit
  submit-Course backend refused key m h = elim (Option-cases (lookup key (prune m).jobs)) [
    | inl missing ↦ rw (missing, submit) (prune-Course m h)
    | inr (job, found) ↦
        rw (found, submit)
          (if_split {A = Manager × _} (λ r. Course fresh k m r.0) (not (is_running m))
            (λ stopped. prune-Course m h)
            (λ runs.
              submit_job-Course backend refused key job m job.future h found
                ((prune-Sound m h).each key job found)))
  ]

  -- The end of a run that was asked to stop writes no report.
  cancelled_end :
      (backend : Backend) (key : ℕ) (job : Job) (m : Manager)
      → has_report k (finish backend cancelled key (request_cancel job) m).db.reports
        ≡ has_report k m.db.reports
  unfolding finish
  cancelled_end backend key job m =
      elim (on_done-reports k backend m.closed m.now cancelled
        (record (request_cancel job) { future = some done }) m.db) [
          | inl same ↦ same
          | inr saving ↦ absurd (ground (arith, saving.wanted))
        ]

  pub cancel_live-Fate :
      (backend : Backend) (key : ℕ) (job : Job) (m : Manager) (f : Option Future)
      → lookup key m.jobs ≡ some job
      → is_finished job ≡ false
      → job.saved ≡ false
      → Fate fresh (lookup k m.jobs) (lookup k (cancel_live backend key job m f).jobs)
        × (has_report k (cancel_live backend key job m f).db.reports ≡ has_report k m.db.reports)
  unfolding cancel_live finish fail
  cancel_live-Fate backend key job m none found u s =
      (put-Fate fresh k key job _ m found u (ground arith), refl)
  cancel_live-Fate backend key job m (some pending) found u s =
      let asked = record (request_cancel job) { future = some done } in
      let a = on_done-Advance backend m.closed m.now cancelled asked m.db s in
      (put-Fate fresh k key job _ m found u (through a), cancelled_end backend key job m)
    where
      through :
          {next : Job}
          → Advance (record (request_cancel job) { future = some done }) next
          → Advance job next
      through a = ground arith
  cancel_live-Fate backend key job m (some executing) found u s =
      (put-Fate fresh k key job _ m found u (ground arith), refl)
  cancel_live-Fate backend key job m (some done) found u s =
      (put-Fate fresh k key job _ m found u (ground arith), refl)
