-- ===== src/Jobs/Fate/Promises.antt =====
-- What the job manager (src/workers/job_manager.py) promises a browser that watches one run.
use mqs_backtest_visualizer.Prelude.{
  ℕ, ◌≡◌, refl, Bool, true, false, Option, none, some, arith, ◌&&◌, ◌⊎◌, not, Option-cases, inl,
  inr, List, [], ◌∷◌, ◌∙◌, if_split, All,
}
use mqs_backtest_visualizer.Prelude.Dict.{lookup, lookup-insert}
use mqs_backtest_visualizer.Jobs.State.{
  Job, Manager, owner_is, Future, pending, executing, done, cancelled_by_user,
}
use mqs_backtest_visualizer.Jobs.Callbacks.{Backend, has_report, on_done, fail, cancelled}
use mqs_backtest_visualizer.Jobs.Manager.{
  CancelReply, cancel_requested, is_finished, cancel, cancel_job, cancel_live, prune, finish,
  request_cancel,
}
use mqs_backtest_visualizer.Jobs.Schedule.{Event, step, run}
use mqs_backtest_visualizer.Jobs.Sound.Base.{Sound}
use mqs_backtest_visualizer.Jobs.Sound.Requests.{cancel-Sound}
use mqs_backtest_visualizer.Jobs.Sound.Run.{step-Sound}
use mqs_backtest_visualizer.Jobs.Fate.Base.{
  Advance, Fate, stays, forgotten, appears, advances, follows, on_done-Advance,
}
use mqs_backtest_visualizer.Jobs.Fate.Steps.{is_registration, SavedNow}
use mqs_backtest_visualizer.Jobs.Fate.Events.{step-Course}

-- The run was cancelled and nothing was saved of it, or it is gone.
abbrev pub withdrawn : Option Job → Bool
withdrawn none = true
withdrawn (some job) = job.state.cancel_requested && not job.saved

Fate-withdrawn : {a b : Option Job} → Fate false a b → withdrawn a ≡ true → withdrawn b ≡ true
Fate-withdrawn stays w = w
Fate-withdrawn (forgotten f) w = refl
Fate-withdrawn (appears spec e) w = cc
Fate-withdrawn (advances u a) w = ground arith
Fate-withdrawn (follows f g) w = Fate-withdrawn g (Fate-withdrawn f w)

-- No event of the schedule registers a run under the key.
abbrev pub NoRegistration : ℕ → List Event → Type 0
NoRegistration k es = All (λ e. is_registration k e ≡ false) es

not_saving : {k : ℕ} {m : Manager} → SavedNow k m → withdrawn (lookup k m.jobs) ≡ true → ⊥
not_saving s w = ground (arith, s.found, s.wanted)

-- A withdrawn run never gets a report, whatever happens next.
pub withdrawn_for_good :
    (k : ℕ) (es : List Event) (m : Manager)
    → Sound m
    → NoRegistration k es
    → withdrawn (lookup k m.jobs) ≡ true
    → has_report k (run es m).db.reports ≡ has_report k m.db.reports
unfolding run
withdrawn_for_good k [] m h n w = refl
withdrawn_for_good k (e ∷ es) m h n w =
    let c = step-Course false k e m h n.0 in
    withdrawn_for_good k es (step e m) (step-Sound e m h) n.1 (Fate-withdrawn c.fate w)
    ∙ (elim c.reports [ inl same ↦ same | inr s ↦ absurd (not_saving s w) ])

asked_to_stop :
    {job next : Job}
    → job.state.cancel_requested ≡ true
    → Advance job next
    → withdrawn (some next) ≡ true
asked_to_stop c a = ground arith

cancel_live-withdrawn :
    (backend : Backend) (key : ℕ) (job : Job) (m : Manager) (f : Option Future)
    → job.saved ≡ false
    → withdrawn (lookup key (cancel_live backend key job m f).jobs) ≡ true
unfolding cancel_live finish fail
cancel_live-withdrawn backend key job m none u =
    rw (lookup-insert key key (fail m.now cancelled_by_user (request_cancel job)) m.jobs)
      (ground arith)
cancel_live-withdrawn backend key job m (some pending) u =
    let asked = record (request_cancel job) { future = some done } in
    let ending = on_done backend m.closed m.now cancelled asked m.db in
    let a = on_done-Advance backend m.closed m.now cancelled asked m.db u in
    let w = asked_to_stop {job = asked} {next = ending.job} refl a in
    rw (lookup-insert key key ending.job m.jobs) (ground arith)
cancel_live-withdrawn backend key job m (some executing) u =
    rw (lookup-insert key key (request_cancel job) m.jobs) (ground arith)
cancel_live-withdrawn backend key job m (some done) u =
    rw (lookup-insert key key (request_cancel job) m.jobs) (ground arith)

-- When `cancel` says that it asked the run to stop, the run is withdrawn.
cancel_job-withdrawn :
    (backend : Backend) (key : ℕ) (job : Job) (m : Manager)
    → (cancel_job backend key job m).1 ≡ cancel_requested
    → withdrawn (lookup key (cancel_job backend key job m).0.jobs) ≡ true
unfolding cancel_job
cancel_job-withdrawn backend key job m =
    if_split {A = Manager × CancelReply}
      (λ r. r.1 ≡ cancel_requested → withdrawn (lookup key r.0.jobs) ≡ true) job.saved
      (λ kept e. cc)
      λ unkept.
        if_split {A = Manager × CancelReply}
          (λ r. r.1 ≡ cancel_requested → withdrawn (lookup key r.0.jobs) ≡ true) (is_finished job)
          (λ over e. cc) (λ u e. cancel_live-withdrawn backend key job m job.future unkept)

cancel-withdrawn :
    (backend : Backend) (key : ℕ) (owner : Option ℕ) (m : Manager)
    → (cancel backend key owner m).1 ≡ cancel_requested
    → withdrawn (lookup key (cancel backend key owner m).0.jobs) ≡ true
unfolding cancel
cancel-withdrawn backend key owner m = elim (Option-cases (lookup key (prune m).jobs)) [
  | inl missing ↦ rw (missing, cancel) (λ e. cc)
  | inr (job, found) ↦
      rw (found, cancel)
        (if_split {A = Manager × CancelReply}
          (λ r. r.1 ≡ cancel_requested → withdrawn (lookup key r.0.jobs) ≡ true)
          (not (owner_is job.spec.owner owner)) (λ stranger e. cc)
          (λ own. cancel_job-withdrawn backend key job (prune m)))
]

-- In a sound manager, once `cancel` has answered that the run is asked to stop, no report of it is
-- ever saved, whatever the workers, the pool and other requests do, as long as its id is not
-- registered again.
pub cancelled_run_unsaved :
    (backend : Backend) (key : ℕ) (owner : Option ℕ) (es : List Event) (m : Manager)
    → Sound m
    → (cancel backend key owner m).1 ≡ cancel_requested
    → NoRegistration key es
    → has_report key (run es (cancel backend key owner m).0).db.reports
      ≡ has_report key (cancel backend key owner m).0.db.reports
cancelled_run_unsaved backend key owner es m h e n =
    withdrawn_for_good key es (cancel backend key owner m).0 (cancel-Sound backend key owner m h) n
      (cancel-withdrawn backend key owner m e)

-- A finished job stays as it is until it is forgotten.
Fate-finished :
    {a b : Option Job} (job : Job)
    → Fate false a b
    → (a ≡ some job) ⊎ (a ≡ none)
    → is_finished job ≡ true
    → (b ≡ some job) ⊎ (b ≡ none)
Fate-finished job stays e f = e
Fate-finished job (forgotten g) e f = inr refl
Fate-finished job (appears spec g) e f = cc
Fate-finished job (advances u a) e f = absurd (ground arith)
Fate-finished job (follows g g') e f = Fate-finished job g' (Fate-finished job g e f) f

finished_from :
    (k : ℕ) (job : Job) (es : List Event) (m : Manager)
    → Sound m
    → NoRegistration k es
    → is_finished job ≡ true
    → (lookup k m.jobs ≡ some job) ⊎ (lookup k m.jobs ≡ none)
    → (lookup k (run es m).jobs ≡ some job) ⊎ (lookup k (run es m).jobs ≡ none)
unfolding run
finished_from k job [] m h n f e = e
finished_from k job (ev ∷ es) m h n f e =
    finished_from k job es (step ev m) (step-Sound ev m h) n.1 f
      (Fate-finished job (step-Course false k ev m h n.0).fate e f)

-- A finished job of a sound manager never changes: through any schedule that does not register its
-- id again, it is held as it was, or it is gone.
pub finished_for_good :
    (k : ℕ) (job : Job) (es : List Event) (m : Manager)
    → Sound m
    → NoRegistration k es
    → is_finished job ≡ true
    → lookup k m.jobs ≡ some job
    → (lookup k (run es m).jobs ≡ some job) ⊎ (lookup k (run es m).jobs ≡ none)
finished_for_good k job es m h n f e = finished_from k job es m h n f (inl e)
