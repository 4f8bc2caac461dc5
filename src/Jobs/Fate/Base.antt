-- ===== src/Jobs/Fate/Base.antt =====
-- The life of one job of src/workers/job_manager.py, as a relation between what the manager holds under
-- its key before and after a step.
use mqs_backtest_visualizer.Prelude.{
  ℕ, ◌≡◌, Bool, true, false, Option, none, some, arith, ◌==◌, not, Bool-cases, inl, inr,
  Result-cases, ◌||◌,
}
use mqs_backtest_visualizer.Prelude.Dict.{lookup, keep_if, lookup-insert, lookup-keep}
use mqs_backtest_visualizer.Jobs.State.{Spec, Job, Database, Manager, Message}
use mqs_backtest_visualizer.Jobs.Callbacks.{
  Outcome, Backend, report, is_cancelled, fail, save, end_failed, end_completed, end_reported,
  end_with, on_done,
}
use mqs_backtest_visualizer.Jobs.Manager.{is_finished, expired, new_job, prune, put}
use mqs_backtest_visualizer.Jobs.Invariant.{implies}
use mqs_backtest_visualizer.Jobs.Sound.Base.{Sound}

-- An unfinished job goes on: it stays the same run, a request to cancel it stays, and once it was
-- cancelled it is not saved.
pub record Advance (job next : Job) : Type 0 where
  pub same_spec : next.spec ≡ job.spec
  pub keeps_request : implies job.state.cancel_requested next.state.cancel_requested ≡ true
  pub no_report : implies job.state.cancel_requested (not next.saved) ≡ true

-- `fresh` says whether the step registers a run under the key.
pub data Fate (fresh : Bool) : Option Job → Option Job → Type 0 where
  stays : {o : Option Job} → Fate fresh o o
  forgotten : {job : Job} → is_finished job ≡ true → Fate fresh (some job) none
  appears : (spec : Spec) → fresh ≡ true → Fate fresh none (some (new_job spec))
  advances :
      {job next : Job}
      → is_finished job ≡ false
      → Advance job next
      → Fate fresh (some job) (some next)
  follows : {a b c : Option Job} → Fate fresh a b → Fate fresh b c → Fate fresh a c

module _ (fresh : Bool) (k : ℕ) where
  pub prune-Fate : (m : Manager) → Sound m → Fate fresh (lookup k m.jobs) (lookup k (prune m).jobs)
  unfolding prune
  prune-Fate m h =
      rw (lookup-keep (λ job. not (expired m.now job)) k m.jobs h.unique) (kept (lookup k m.jobs))
    where
      finished : (now : ℕ) (job : Job) → not (expired now job) ≡ false → is_finished job ≡ true
      finished now job e = ground arith

      kept : (o : Option Job) → Fate fresh o (keep_if (λ job. not (expired m.now job)) o)
      kept none = stays
      kept (some job) = elim (Bool-cases (not (expired m.now job))) [
        | inl e ↦ rw e stays
        | inr e ↦ rw e (forgotten (finished m.now job e))
      ]

  pub put-Fate :
      (key : ℕ) (job next : Job) (m : Manager)
      → lookup key m.jobs ≡ some job
      → is_finished job ≡ false
      → Advance job next
      → Fate fresh (lookup k m.jobs) (lookup k (put key next m).jobs)
  put-Fate key job next m found u a =
      rw (lookup-insert key k next m.jobs) (elim (Bool-cases (k == key)) [
        | inl e ↦ let same : k ≡ key = ground arith in rw e (rw (same, found) (advances u a))
        | inr e ↦ rw e stays
      ])

pub end_failed-Advance :
    (backend : Backend) (now : ℕ) (message : Message) (job : Job) (db : Database)
    → job.saved ≡ false
    → Advance job (end_failed backend now message job db).job
unfolding end_failed fail
end_failed-Advance backend now message job db u = ground arith

end_reported-Advance :
    (backend : Backend) (now body : ℕ) (job : Job) (db : Database) (owner : Option ℕ)
    → job.saved ≡ false
    → job.state.cancel_requested ≡ false
    → Advance job (end_reported backend now body job db owner).job
unfolding end_reported end_completed
end_reported-Advance backend now body job db none u c = ground arith
end_reported-Advance backend now body job db (some owner) u c =
    elim (Result-cases (save backend job.spec.id owner body db)) [
      | inl (db', s) ↦ rw (s, end_reported) (ground arith)
      | inr (f, s) ↦ rw (s, end_reported) (end_failed-Advance backend now _ job db u)
    ]

end_with-Advance :
    (backend : Backend) (now : ℕ) (outcome : Outcome) (job : Job) (db : Database)
    → job.saved ≡ false
    → job.state.cancel_requested ≡ false
    → Advance job (end_with backend now outcome job db).job
unfolding end_with
end_with-Advance backend now (report body) job db u c =
    end_reported-Advance backend now body job db job.spec.owner u c
end_with-Advance backend now outcome job db u c = end_failed-Advance backend now _ job db u

pub on_done-Advance :
    (backend : Backend) (closed : Bool) (now : ℕ) (outcome : Outcome) (job : Job) (db : Database)
    → job.saved ≡ false
    → Advance job (on_done backend closed now outcome job db).job
unfolding on_done
on_done-Advance backend closed now outcome job db u =
    elim (Bool-cases (closed || job.state.cancel_requested || is_cancelled outcome)) [
      | inl stop ↦ rw stop (end_failed-Advance backend now _ job db u)
      | inr go ↦ rw go (end_with-Advance backend now outcome job db u (ground arith))
    ]
