-- ===== src/Jobs/Sound/Base.antt =====
-- The invariant of a whole job manager (src/workers/job_manager.py), and what its steps share.
use mqs_backtest_visualizer.Prelude.{ℕ, ◌≡◌, Bool, some, arith, ◌==◌, Bool-cases, inl, inr, subst}
use mqs_backtest_visualizer.Prelude.Dict.{
  Dict, insert, erase, keep, Unique, Holds, lookup-insert, lookup-keep, lookup-erase_ne,
  lookup-erase_self, insert-Unique, keep-Unique,
}
use mqs_backtest_visualizer.Jobs.State.{done, Job, Database, Manager}
use mqs_backtest_visualizer.Jobs.Callbacks.{Outcome, Backend}
use mqs_backtest_visualizer.Jobs.Manager.{prune, put, finish}
use mqs_backtest_visualizer.Jobs.Invariant.{
  SoundJob, Ended, on_done-SoundJob, on_done-Grows, Grows, SoundJob-Grows,
}

pub record Sound (m : Manager) : Type 0 where
  pub unique : Unique m.jobs
  pub each : Holds (SoundJob m.db.reports) m.jobs

pub put-Holds :
    (P : ℕ → Job → Type 0) (key : ℕ) (job : Job) (jobs : Dict Job)
    → Holds P jobs
    → P key job
    → Holds P (insert key job jobs)
put-Holds P key job jobs h p k v e = elim (Bool-cases (k == key)) [
  | inl same ↦
      let at : key ≡ k = ground arith in
      let it : job ≡ v = ground (arith, lookup-insert key k job jobs) in
      subst (λ i. P i v) at (subst (λ j. P key j) it p)
  | inr other ↦ h k v (ground (arith, lookup-insert key k job jobs))
]

keep-Holds :
    (P : ℕ → Job → Type 0) (test : Job → Bool) (jobs : Dict Job)
    → Unique jobs
    → Holds P jobs
    → Holds P (keep test jobs)
keep-Holds P test jobs u h k v e = h k v (ground (arith, lookup-keep test k jobs u))

pub erase-Holds :
    (P : ℕ → Job → Type 0) (key : ℕ) (jobs : Dict Job)
    → Unique jobs
    → Holds P jobs
    → Holds P (erase key jobs)
erase-Holds P key jobs u h k v e =
    h k v (ground (arith, lookup-erase_ne key k jobs, lookup-erase_self key jobs u))

pub prune-Sound : (m : Manager) → Sound m → Sound (prune m)
unfolding prune
prune-Sound m h = record {
  unique = keep-Unique _ m.jobs h.unique;
  each = keep-Holds (SoundJob m.db.reports) _ m.jobs h.unique h.each;
}

pub put-Sound :
    (key : ℕ) (job : Job) (m : Manager)
    → Sound m
    → SoundJob m.db.reports key job
    → Sound (put key job m)
put-Sound key job m h p = record {
  unique = insert-Unique key job m.jobs h.unique;
  each = put-Holds (SoundJob m.db.reports) key job m.jobs h.each p;
}

-- A job's end writes the job and the database.
pub end-Sound :
    (key : ℕ) (job : Job) (db : Database) (m : Manager)
    → Sound m
    → Grows m.db.reports db.reports
    → SoundJob db.reports key job
    → Sound (record (put key job m) { db = db })
end-Sound key job db m h g p = record {
  unique = insert-Unique key job m.jobs h.unique;
  each =
      put-Holds (SoundJob db.reports) key job m.jobs
        (λ k v e. SoundJob-Grows m.db.reports db.reports k v g (h.each k v e)) p;
}

pub finish-Sound :
    (backend : Backend) (outcome : Outcome) (key : ℕ) (job : Job) (m : Manager)
    → Sound m
    → Ended key (record job { future = some done })
    → Sound (finish backend outcome key job m)
unfolding finish
finish-Sound backend outcome key job m h ended =
    end-Sound key _ _ m h
      (on_done-Grows backend m.closed m.now outcome (record job { future = some done }) m.db)
      (on_done-SoundJob backend m.closed key m.now outcome (record job { future = some done }) m.db
        ended)
