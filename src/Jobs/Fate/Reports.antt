-- ===== src/Jobs/Fate/Reports.antt =====
-- Which ends of a job of src/workers/job_manager.py write a report.
use mqs_backtest_visualizer.Prelude.{
  ℕ, ◌≡◌, refl, Bool, false, Option, none, some, arith, ◌==◌, ◌||◌, ◌⊎◌, Bool-cases, inl, inr, ok,
  Result-cases, ◌∷◌,
}
use mqs_backtest_visualizer.Jobs.State.{Job, Database, Message}
use mqs_backtest_visualizer.Jobs.Callbacks.{
  Outcome, Backend, report, is_cancelled, save, end_failed, end_completed, end_reported, end_with,
  on_done, has_report,
}
use mqs_backtest_visualizer.Jobs.Invariant.{reports-settle}

-- The manager is open, nobody cancelled the run, and `id` is its id.
pub record Saving (id : ℕ) (closed : Bool) (job : Job) : Type 0 where
  pub open_manager : closed ≡ false
  pub wanted : job.state.cancel_requested ≡ false
  pub own_id : job.spec.id ≡ id

pub reports-end_failed :
    (backend : Backend) (now : ℕ) (message : Message) (job : Job) (db : Database)
    → (end_failed backend now message job db).db.reports ≡ db.reports
unfolding end_failed
reports-end_failed backend now message job db = reports-settle backend.settles job.spec false db

save-reports :
    (backend : Backend) (id owner body : ℕ) (db db' : Database)
    → save backend id owner body db ≡ ok db'
    → db'.reports ≡ record { id = id; owner = owner; body = body } ∷ db.reports
unfolding save
save-reports backend id owner body db db' h = ground arith

has-save :
    (id k : ℕ) (db db' : Database) (owner body : ℕ)
    → db'.reports ≡ record { id = id; owner = owner; body = body } ∷ db.reports
    → (has_report k db'.reports ≡ has_report k db.reports) ⊎ (id ≡ k)
has-save id k db db' owner body e = elim (Bool-cases (id == k)) [
  | inl same ↦ inr (ground arith)
  | inr other ↦ inl (rw (e, other))
]

module _ (k : ℕ) where
  end_reported-reports :
      (backend : Backend) (now body : ℕ) (job : Job) (db : Database) (owner : Option ℕ)
      → (has_report k (end_reported backend now body job db owner).db.reports
          ≡ has_report k db.reports)
        ⊎ (job.spec.id ≡ k)
  unfolding end_reported end_completed
  end_reported-reports backend now body job db none = inl (rw reports-settle refl)
  end_reported-reports backend now body job db (some owner) =
      elim (Result-cases (save backend job.spec.id owner body db)) [
        | inl (db', s) ↦
            rw (s, end_reported, reports-settle)
              (has-save job.spec.id k db db' owner body
                (save-reports backend job.spec.id owner body db db' s))
        | inr (f, s) ↦ rw (s, end_reported, reports-end_failed) (inl refl)
      ]

  end_with-reports :
      (backend : Backend) (now : ℕ) (outcome : Outcome) (job : Job) (db : Database)
      → (has_report k (end_with backend now outcome job db).db.reports ≡ has_report k db.reports)
        ⊎ (job.spec.id ≡ k)
  unfolding end_with
  end_with-reports backend now (report body) job db =
      end_reported-reports backend now body job db job.spec.owner
  end_with-reports backend now outcome job db = inl (rw reports-end_failed refl)

  pub on_done-reports :
      (backend : Backend) (closed : Bool) (now : ℕ) (outcome : Outcome) (job : Job) (db : Database)
      → (has_report k (on_done backend closed now outcome job db).db.reports
          ≡ has_report k db.reports)
        ⊎ Saving k closed job
  unfolding on_done
  on_done-reports backend closed now outcome job db =
      elim (Bool-cases (closed || job.state.cancel_requested || is_cancelled outcome)) [
        | inl stop ↦ rw (stop, reports-end_failed) (inl refl)
        | inr go ↦ rw go (elim (end_with-reports backend now outcome job db) [
          | inl same ↦ inl same
          | inr own ↦ inr (ground arith)
        ])
      ]
