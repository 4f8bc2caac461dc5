-- ===== src/Jobs/Verdict.antt =====
-- The verdict that the end of a validation run leaves on the uploaded strategy
-- (src/workers/job_manager.py, `_on_done` with `_settle_validation`).
use mqs_backtest_visualizer.Prelude.{
  ℕ, ◌≡◌, refl, Bool, true, false, Option, none, some, List, [], ◌∷◌, arith, ◌==◌, ◌&&◌, ◌||◌, All,
  Bool-cases, inl, inr, if◌then◌else◌, Result-cases,
}
use mqs_backtest_visualizer.Jobs.State.{
  Spec, Job, Strategy, active, failed_validation, Database, Message, validation,
}
use mqs_backtest_visualizer.Jobs.Callbacks.{
  Outcome, report, Backend, Ending, is_uploaded, is_cancelled, update_strategies, settle_validation,
  save, fail, end_failed, end_completed, end_reported, end_with, on_done,
}
use mqs_backtest_visualizer.Jobs.Invariant.{is_completed}

-- The row of the strategy under test carries the verdict: active and enabled, or neither.
abbrev pub Judged : Spec → Bool → Strategy → Type 0
Judged spec passed row =
    (row.key == spec.strategy_key) && is_uploaded row.kind ≡ true
    → (row.enabled ≡ passed)
      × (row.status ≡ (if passed then active else failed_validation))
      × (row.validation_job ≡ some spec.id)

update_strategies-Judged :
    (spec : Spec) (passed : Bool) (rows : List Strategy)
    → All (Judged spec passed) (update_strategies spec passed rows)
update_strategies-Judged spec passed [] = tt
update_strategies-Judged spec passed (row ∷ rows) =
    elim (Bool-cases ((row.key == spec.strategy_key) && is_uploaded row.kind)) [
      | inl e ↦ rw e ((λ g. (refl, refl, refl)), update_strategies-Judged spec passed rows)
      | inr e ↦ rw e ((λ g. absurd (ground arith)), update_strategies-Judged spec passed rows)
    ]

settle_validation-Judged :
    (spec : Spec) (passed : Bool) (db : Database)
    → spec.purpose ≡ validation
    → All (Judged spec passed) (settle_validation true spec passed db).strategies
unfolding settle_validation
settle_validation-Judged spec passed db v =
    rw (v, settle_validation) (update_strategies-Judged spec passed db.strategies)

-- The strategy rows that a job's end leaves carry its verdict.
abbrev pub Settled : Ending → Type 0
Settled ending =
    All (Judged ending.job.spec (is_completed ending.job.state.status)) ending.db.strategies

module _ (backend : Backend) (settles : backend.settles ≡ true) (now : ℕ) where
  end_failed-Settled :
      (message : Message) (job : Job) (db : Database)
      → job.spec.purpose ≡ validation
      → Settled (end_failed backend now message job db)
  unfolding end_failed fail
  end_failed-Settled message job db v = rw settles (settle_validation-Judged job.spec false db v)

  end_completed-Settled :
      (job : Job) (db : Database)
      → job.spec.purpose ≡ validation
      → Settled (end_completed backend now job db)
  unfolding end_completed
  end_completed-Settled job db v = rw settles (settle_validation-Judged job.spec true db v)

  end_reported-Settled :
      (body : ℕ) (job : Job) (db : Database) (owner : Option ℕ)
      → job.spec.purpose ≡ validation
      → Settled (end_reported backend now body job db owner)
  unfolding end_reported
  end_reported-Settled body job db none v = end_completed-Settled _ db v
  end_reported-Settled body job db (some owner) v =
      elim (Result-cases (save backend job.spec.id owner body db)) [
        | inl (db', e) ↦ rw (e, end_reported) (end_completed-Settled _ db' v)
        | inr (f, e) ↦ rw (e, end_reported) (end_failed-Settled _ job db v)
      ]

  end_with-Settled :
      (outcome : Outcome) (job : Job) (db : Database)
      → job.spec.purpose ≡ validation
      → Settled (end_with backend now outcome job db)
  unfolding end_with
  end_with-Settled Outcome.cancelled job db v = end_failed-Settled _ job db v
  end_with-Settled (Outcome.raised e) job db v = end_failed-Settled _ job db v
  end_with-Settled (Outcome.bad_report e) job db v = end_failed-Settled _ job db v
  end_with-Settled (Outcome.error e) job db v = end_failed-Settled _ job db v
  end_with-Settled (report body) job db v = end_reported-Settled body job db job.spec.owner v

-- However the future of a validation run ends, when the strategy's row can be written it is enabled and
-- active if the job completed, and disabled and refused if the job failed.
pub on_done-Settled :
    (backend : Backend) (closed : Bool) (now : ℕ) (outcome : Outcome) (job : Job) (db : Database)
    → backend.settles ≡ true
    → job.spec.purpose ≡ validation
    → Settled (on_done backend closed now outcome job db)
unfolding on_done
on_done-Settled backend closed now outcome job db s v =
    elim (Bool-cases (closed || job.state.cancel_requested || is_cancelled outcome)) [
      | inl e ↦ rw e (end_failed-Settled backend s now _ job db v)
      | inr e ↦ rw e (end_with-Settled backend s now outcome job db v)
    ]
