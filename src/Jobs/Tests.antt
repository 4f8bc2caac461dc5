-- ===== src/Jobs/Tests.antt =====
-- Runs of the job manager at concrete inputs (src/workers/job_manager.py).
use mqs_backtest_visualizer.Prelude.{
  ◌≡◌, refl, true, false, none, some, List, [], ◌∷◌, arith, ◌⊎◌, ℕ, Option, Bool-cases, inl, inr,
  sym, ap, ◌∙◌, ◌==◌,
}
use mathlib.Core.List.{Memᴰ}
use mqs_backtest_visualizer.Prelude.Dict.{lookup}
use mqs_backtest_visualizer.Jobs.State.{
  Spec, user, validation, Strategy, uploaded, validating, active, Manager, Job, completed, done,
}
use mqs_backtest_visualizer.Jobs.Callbacks.{
  Backend, report, has_report, on_done, end_with, end_reported, end_completed, save,
  settle_validation,
}
use mqs_backtest_visualizer.Jobs.Manager.{
  cancel_requested, cancel, cancel_job, cancel_live, prune, register, submit, submit_job,
  submit_new, get_detail, finish, live_summaries, Summary, new_job,
}
use mqs_backtest_visualizer.Jobs.Schedule.{
  Event, registers, submits, begins, ends, cancels, tick, step, run, begin_at, begin_job, end_at,
  on_job,
}
use mqs_backtest_visualizer.Jobs.Sound.Base.{Sound}
use mqs_backtest_visualizer.Jobs.Sound.Run.{run-Sound}
use mqs_backtest_visualizer.Jobs.Fate.Promises.{cancelled_run_unsaved, finished_for_good}
use mqs_backtest_visualizer.Jobs.Verdict.{Settled, on_done-Settled}
use mqs_backtest_visualizer.Jobs.Views.{SameFor, others_unseen}
use mqs_backtest_visualizer.Jobs.Live.{Live, Listed, line_of, NewestFirst, live_summaries_lem}

abbrev backend : Backend
backend = record { duplicate_key = []; save_error = none; settles = true }

abbrev spec : Spec
spec = record { id = 7; owner = some 1; purpose = user; strategy_key = 3; created_at = 5 }

abbrev uploaded_row : Strategy
uploaded_row = record {
  key = 3;
  kind = uploaded;
  status = validating;
  enabled = false;
  validation_job = none;
}

abbrev check_spec : Spec
check_spec = record { id = 8; owner = none; purpose = validation; strategy_key = 3; created_at = 6 }

abbrev idle : Manager
idle = record {
  pool = true;
  closed = false;
  jobs = [];
  now = 0;
  db = record { reports = []; strategies = uploaded_row ∷ [] };
}

abbrev begun : List Event
begun =
    registers spec
    ∷ registers check_spec
    ∷ submits backend none 7
    ∷ submits backend none 8
    ∷ begins 7
    ∷ begins 8
    ∷ []

abbrev over : List Event
over = ends backend (report 40) 7 ∷ ends backend (report 41) 8 ∷ []

abbrev busy : Manager
busy = run begun idle

idle-Sound : Sound idle
idle-Sound = record { unique = tt; each = λ k v e. cc }

run-Sound_example : Sound (run begun idle)
run-Sound_example = run-Sound begun idle idle-Sound

cancel-busy : (cancel backend 7 (some 1) busy).1 ≡ cancel_requested
unfolding run step register submit submit_job submit_new begin_at begin_job on_job prune cancel
    cancel_job cancel_live
cancel-busy = refl

cancelled_run_unsaved_example :
    has_report 7 (run over (cancel backend 7 (some 1) busy).0).db.reports
    ≡ has_report 7 (cancel backend 7 (some 1) busy).0.db.reports
cancelled_run_unsaved_example =
    cancelled_run_unsaved backend 7 (some 1) over busy run-Sound_example cancel-busy
      (refl, (refl, tt))

-- The job of a validation run that went well.
abbrev passed : Job
passed = record (new_job check_spec) {
  state = record (new_job check_spec).state { status = completed; progress_pct = 100 };
  future = some done;
  finished_at = some 0;
  detail = some (record { status = completed; progress = 100; error = none; report = some 41 });
}

validated : lookup 8 (run over busy).jobs ≡ some passed
unfolding run step register submit submit_job submit_new begin_at begin_job on_job prune end_at
    finish on_done end_with end_reported end_completed save settle_validation
validated = refl

verdict_saved :
    (run over busy).db.strategies
    ≡ record uploaded_row { status = active; enabled = true; validation_job = some 8 } ∷ []
unfolding run step register submit submit_job submit_new begin_at begin_job on_job prune end_at
    finish on_done end_with end_reported end_completed save settle_validation
verdict_saved = refl

finished_for_good_example :
    (lookup 8 (run (tick 5 ∷ cancels backend 7 (some 1) ∷ []) (run over busy)).jobs ≡ some passed)
    ⊎ (lookup 8 (run (tick 5 ∷ cancels backend 7 (some 1) ∷ []) (run over busy)).jobs ≡ none)
finished_for_good_example =
    finished_for_good 8 passed (tick 5 ∷ cancels backend 7 (some 1) ∷ []) (run over busy)
      (run-Sound over busy run-Sound_example) (refl, (refl, tt)) refl validated

-- Two managers that hold the same job of user 1, one with a job of user 2 as well.
abbrev other_spec : Spec
other_spec = record { id = 9; owner = some 2; purpose = user; strategy_key = 3; created_at = 6 }

abbrev shared : Manager
shared = record idle { jobs = (9, new_job other_spec) ∷ (7, new_job spec) ∷ [] }

abbrev alone : Manager
alone = record idle { jobs = (7, new_job spec) ∷ [] }

one_owner : (a : Option ℕ) → a ≡ some 2 → a ≡ some 1 → ⊥
one_owner a e f = let same : ◌≡◌ {A = ℕ} 2 1 = cc in absurd (omega (arith, same))

not_of_1 : (job : Job) → job.spec.owner ≡ some 1 → some (new_job other_spec) ≡ some job → ⊥
not_of_1 job own e =
    let same : new_job other_spec ≡ job = cc in
    one_owner job.spec.owner (sym (ap (λ (j : Job). j.spec.owner) same)) own

at_9 : (key : ℕ) → (key == 9) ≡ true → lookup key shared.jobs ≡ some (new_job other_spec)
at_9 key e = rw e refl

not_at_9 : (key : ℕ) → (key == 9) ≡ false → lookup key shared.jobs ≡ lookup key alone.jobs
not_at_9 key e = rw e refl

alone_at_9 : (key : ℕ) → (key == 9) ≡ true → lookup key alone.jobs ≡ none
alone_at_9 key e = let here : key ≡ 9 = ground (arith, e) in rw here refl

shared-SameFor : SameFor (some 1) shared alone
shared-SameFor = (
  refl,
  λ key job own. elim (Bool-cases (key == 9)) [
    | inl e ↦ (
      λ h. absurd (not_of_1 job own (sym (at_9 key e) ∙ h)),
      λ h. let no : none ≡ some job = sym (alone_at_9 key e) ∙ h in cc,
    )
    | inr e ↦ (λ h. sym (not_at_9 key e) ∙ h, λ h. not_at_9 key e ∙ h)
  ],
)

others_unseen_example :
    ((get_detail 9 (some 1) shared).1 ≡ (get_detail 9 (some 1) alone).1)
    × ((cancel backend 9 (some 1) shared).1 ≡ (cancel backend 9 (some 1) alone).1)
others_unseen_example =
    others_unseen backend 9 (some 1) shared alone (refl, (refl, tt)) (refl, tt) shared-SameFor

live_summaries_lem_example :
    ((line : Summary)
      → Memᴰ line (live_summaries (some 1) shared).1
      → Listed (some 1) line shared.jobs)
    × ((key : ℕ) (job : Job)
        → Memᴰ (key, job) shared.jobs
        → Live (some 1) job
        → Memᴰ (line_of job) (live_summaries (some 1) shared).1)
    × NewestFirst (live_summaries (some 1) shared).1
live_summaries_lem_example = live_summaries_lem (some 1) shared

on_done-Settled_example : Settled (on_done backend false 9 (report 41) (new_job check_spec) idle.db)
on_done-Settled_example =
    on_done-Settled backend false 9 (report 41) (new_job check_spec) idle.db refl refl
