-- ===== src/Jobs/Sound/Requests.antt =====
-- The requests of src/workers/job_manager.py keep the invariant: register, submit, cancel, get_detail.
use mqs_backtest_visualizer.Prelude.{
  ℕ, ◌≡◌, refl, false, Option, none, some, arith, Bool-cases, Option-cases, inl, inr, if_split,
}
use mqs_backtest_visualizer.Prelude.Dict.{lookup, erase-Unique}
use mqs_backtest_visualizer.Prelude.Text.{Text}
use mqs_backtest_visualizer.Jobs.State.{
  Spec, Future, pending, executing, done, Job, Manager, is_some, owner_is,
}
use mqs_backtest_visualizer.Jobs.Callbacks.{cancelled, Backend, fail}
use mqs_backtest_visualizer.Jobs.Manager.{
  CancelReply, is_finished, is_running, prune, lacks_owner, new_job, cancel_live, cancel_job,
  cancel, get_detail, request_cancel, register, submit_new, submit_job, submit,
}
use mqs_backtest_visualizer.Jobs.Invariant.{SoundJob, end_failed-SoundJob, end_failed-Grows}
use mqs_backtest_visualizer.Jobs.Sound.Base.{
  Sound, put-Sound, prune-Sound, end-Sound, finish-Sound, erase-Holds,
}

pub register-Sound : (spec : Spec) (m : Manager) → Sound m → Sound (register spec m).0
unfolding register
register-Sound spec m h = elim (Bool-cases (lacks_owner spec)) [
  | inl bad ↦ rw bad h
  | inr owned ↦ elim (Bool-cases (is_running m)) [
    | inr stopped ↦ rw (owned, stopped) h
    | inl runs ↦ elim (Bool-cases (is_some (lookup spec.id (prune m).jobs))) [
      | inl known ↦ rw (owned, runs, known) (prune-Sound m h)
      | inr fresh ↦
          rw (owned, runs, fresh)
            (put-Sound spec.id (new_job spec) (prune m) (prune-Sound m h) (ground arith))
    ]
  ]
]

submit_new-Sound :
    (backend : Backend) (key : ℕ) (job : Job) (m : Manager) (refused : Option Text)
    → Sound m
    → SoundJob m.db.reports key job
    → job.future ≡ none
    → is_finished job ≡ false
    → Sound (submit_new backend key job m refused).0
unfolding submit_new
submit_new-Sound backend key job m none h s f u = put-Sound key _ m h (ground arith)
submit_new-Sound backend key job m (some e) h s f u =
    end-Sound key _ _ m h (end_failed-Grows backend m.now _ job m.db)
      (end_failed-SoundJob backend key m.now _ job m.db (ground arith))

submit_job-Sound :
    (backend : Backend) (refused : Option Text) (key : ℕ) (job : Job) (m : Manager)
    (f : Option Future)
    → Sound m
    → SoundJob m.db.reports key job
    → job.future ≡ f
    → Sound (submit_job backend refused key job m f).0
unfolding submit_job
submit_job-Sound backend refused key job m (some f) h s e = h
submit_job-Sound backend refused key job m none h s e =
    if_split {A = Manager × _} (λ r. Sound r.0) (is_finished job) (λ over. h)
      (λ u. submit_new-Sound backend key job m refused h s e u)

pub submit-Sound :
    (backend : Backend) (refused : Option Text) (key : ℕ) (m : Manager)
    → Sound m
    → Sound (submit backend refused key m).0
unfolding submit
submit-Sound backend refused key m h =
    let p = prune-Sound m h in
    elim (Option-cases (lookup key (prune m).jobs)) [
      | inl missing ↦ rw (missing, submit) p
      | inr (job, found) ↦ elim (Bool-cases (is_running m)) [
        | inr stopped ↦ rw (found, submit, stopped) p
        | inl runs ↦
            rw (found, submit, runs)
              (submit_job-Sound backend refused key job (prune m) job.future p
                (p.each key job found) refl)
      ]
    ]

cancel_live-Sound :
    (backend : Backend) (key : ℕ) (job : Job) (m : Manager) (f : Option Future)
    → Sound m
    → SoundJob m.db.reports key job
    → job.future ≡ f
    → is_finished job ≡ false
    → Sound (cancel_live backend key job m f)
unfolding cancel_live fail
cancel_live-Sound backend key job m none h s e u = put-Sound key _ m h (ground arith)
cancel_live-Sound backend key job m (some pending) h s e u =
    finish-Sound backend cancelled key (request_cancel job) m h (ground arith)
cancel_live-Sound backend key job m (some executing) h s e u = put-Sound key _ m h (ground arith)
cancel_live-Sound backend key job m (some done) h s e u = absurd (ground arith)

cancel_job-Sound :
    (backend : Backend) (key : ℕ) (job : Job) (m : Manager)
    → Sound m
    → SoundJob m.db.reports key job
    → Sound (cancel_job backend key job m).0
unfolding cancel_job
cancel_job-Sound backend key job m h s =
    if_split {A = Manager × CancelReply} (λ r. Sound r.0) job.saved (λ kept. h)
      λ unsaved.
        if_split {A = Manager × CancelReply} (λ r. Sound r.0) (is_finished job)
          (λ over. record {
            unique = erase-Unique key m.jobs h.unique;
            each = erase-Holds (SoundJob m.db.reports) key m.jobs h.unique h.each;
          })
          (λ u. cancel_live-Sound backend key job m job.future h s refl u)

pub cancel-Sound :
    (backend : Backend) (key : ℕ) (owner : Option ℕ) (m : Manager)
    → Sound m
    → Sound (cancel backend key owner m).0
unfolding cancel
cancel-Sound backend key owner m h =
    let p = prune-Sound m h in
    elim (Option-cases (lookup key (prune m).jobs)) [
      | inl missing ↦ rw (missing, cancel) p
      | inr (job, found) ↦ elim (Bool-cases (owner_is job.spec.owner owner)) [
        | inr stranger ↦ rw (found, cancel, stranger) p
        | inl own ↦
            rw (found, cancel, own)
              (cancel_job-Sound backend key job (prune m) p (p.each key job found))
      ]
    ]

pub get_detail-prune :
    (key : ℕ) (owner : Option ℕ) (m : Manager) → (get_detail key owner m).0 ≡ prune m
unfolding get_detail
get_detail-prune key owner m = ground arith
