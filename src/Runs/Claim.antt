-- ===== src/Runs/Claim.antt =====
-- How the statements on the table of runs exclude each other (src/repositories/runs.py,
-- src/workers/run_job.py, src/workers/reconciler.py).
use mqs_backtest_visualizer.Prelude.{
  ℕ, ◌-◌, ◌≡◌, refl, Bool, true, false, Option, none, some, List, [], ◌∷◌, ◌++◌, arith, All,
  Bool-cases, Option-cases, inl, inr, ◌&&◌, ◌==◌,
}
use mqs_backtest_visualizer.Prelude.Text.{Text}
use mqs_backtest_visualizer.Jobs.State.{Purpose, queued, running}
use mqs_backtest_visualizer.Jobs.Invariant.{is_terminal}
use mqs_backtest_visualizer.Runs.Table.{
  Run, RunTable, for_user, update_where, delete_where, find_run, is_at, create_run,
  delete_unclaimed_run, fail_unclaimed_run,
}
use mqs_backtest_visualizer.Runs.Worker.{
  claim, fail_running_run, is_interrupted, reconcile_interrupted_runs,
}

module _ (test : Run → Bool) where
  update-none :
      (change : Run → Run) (runs : RunTable)
      → All (λ r. test r ≡ false) runs
      → (update_where test change runs).1 ≡ 0
  update-none change [] h = refl
  update-none change (run ∷ runs) h = rw (h.0, update-none change runs h.1)

  delete-none : (runs : RunTable) → All (λ r. test r ≡ false) runs → (delete_where test runs).1 ≡ 0
  delete-none [] h = refl
  delete-none (run ∷ runs) h = rw (h.0, delete-none runs h.1)

  -- What an update leaves fails a test that its change fails.
  update-All :
      (after : Run → Bool) (change : Run → Run) (runs : RunTable)
      → ((r : Run) → test r ≡ true → after (change r) ≡ false)
      → ((r : Run) → test r ≡ false → after r ≡ false)
      → All (λ r. after r ≡ false) (update_where test change runs).0
  update-All after change [] f g = tt
  update-All after change (run ∷ runs) f g = elim (Bool-cases (test run)) [
    | inl e ↦ rw e (f run e, update-All after change runs f g)
    | inr e ↦ rw e (g run e, update-All after change runs f g)
  ]

  -- A row that a statement does not match is found as it was.
  pub find-update :
      (key : ℕ) (change : Run → Run) (runs : RunTable) (r : Run)
      → ((x : Run) → (change x).id ≡ x.id)
      → find_run key runs ≡ some r
      → test r ≡ false
      → find_run key (update_where test change runs).0 ≡ some r
  find-update key change [] r same e n = cc
  find-update key change (run ∷ runs) r same e n = elim (Bool-cases (test run)) [
    | inl t ↦ elim (Bool-cases (run.id == key)) [
      | inl here ↦ absurd (ground arith)
      | inr other ↦ rw (t, same run, other) (find-update key change runs r same (ground arith) n)
    ]
    | inr f ↦ elim (Bool-cases (run.id == key)) [
      | inl here ↦ rw (f, here) (ground arith)
      | inr other ↦ rw (f, other) (find-update key change runs r same (ground arith) n)
    ]
  ]

  find-delete :
      (key : ℕ) (runs : RunTable) (r : Run)
      → find_run key runs ≡ some r
      → test r ≡ false
      → find_run key (delete_where test runs).0 ≡ some r
  find-delete key [] r e n = cc
  find-delete key (run ∷ runs) r e n = elim (Bool-cases (test run)) [
    | inl t ↦ elim (Bool-cases (run.id == key)) [
      | inl here ↦ absurd (ground arith)
      | inr other ↦ rw t (find-delete key runs r (ground arith) n)
    ]
    | inr f ↦ elim (Bool-cases (run.id == key)) [
      | inl here ↦ rw (f, here) (ground arith)
      | inr other ↦ rw (f, other) (find-delete key runs r (ground arith) n)
    ]
  ]

find-append :
    (key : ℕ) (runs more : RunTable) (r : Run)
    → find_run key runs ≡ some r
    → find_run key (runs ++ more) ≡ some r
find-append key [] more r e = cc
find-append key (run ∷ runs) more r e = ground (arith, find-append key runs more r)

-- Once a worker has tried to claim a run, no other claim of it succeeds, and neither does a deletion or
-- a failure that wants it unclaimed, whoever asks.
pub claimed_once :
    (now later key : ℕ) (message : Text) (owner : Option ℕ) (runs : RunTable)
    → ((claim later key (claim now key runs).0).1 ≡ false)
      × ((delete_unclaimed_run key owner (claim now key runs).0).1 ≡ false)
      × ((fail_unclaimed_run later key message owner (claim now key runs).0).1 ≡ false)
unfolding claim delete_unclaimed_run fail_unclaimed_run
claimed_once now later key message owner runs =
    let claimed : (r : Run) → Run = λ r. record r {
      status = running;
      heartbeat_at = some now;
      progress_pct = 0;
      error_message = none;
    } in
    let unqueued =
      update-All (is_at key queued) (is_at key queued) claimed runs (λ r t. ground arith)
        (λ r f. f) in
    let unmatched =
      update-All (is_at key queued) (λ r. is_at key queued r && for_user owner r) claimed runs
        (λ r t. ground arith) (λ r f. ground arith) in
    (
      rw (
          update-none (is_at key queued) _ (update_where (is_at key queued) claimed runs).0
            unqueued),
      rw (
          delete-none (λ r. is_at key queued r && for_user owner r)
            (update_where (is_at key queued) claimed runs).0 unmatched),
      rw (
          update-none (λ r. is_at key queued r && for_user owner r) _
            (update_where (is_at key queued) claimed runs).0 unmatched),
    )

-- The statements that a run's own worker does not issue.
pub data Statement : Type 0 where
  creates : ℕ → ℕ → Option ℕ → Purpose → ℕ → Statement
  claims : ℕ → ℕ → Statement
  deletes_unclaimed : ℕ → Option ℕ → Statement
  fails_unclaimed : ℕ → ℕ → Text → Option ℕ → Statement
  fails_running : ℕ → ℕ → Text → Statement
  reconciles : ℕ → ℕ → Statement

abbrev created : RunTable → Option RunTable → RunTable
created runs none = runs
created runs (some next) = next

abbrev pub apply : Statement → RunTable → RunTable
apply (creates now key owner purpose strategy) runs =
    created runs (create_run now key owner purpose strategy runs)
apply (claims now key) runs = (claim now key runs).0
apply (deletes_unclaimed key owner) runs = (delete_unclaimed_run key owner runs).0
apply (fails_unclaimed now key message owner) runs =
    (fail_unclaimed_run now key message owner runs).0
apply (fails_running now key message) runs = (fail_running_run now key message runs).0
apply (reconciles now stale) runs = (reconcile_interrupted_runs now stale runs).0

abbrev pub apply_all : List Statement → RunTable → RunTable
apply_all [] runs = runs
apply_all (s ∷ ss) runs = apply_all ss (apply s runs)

apply-terminal :
    (s : Statement) (key : ℕ) (runs : RunTable) (r : Run)
    → find_run key runs ≡ some r
    → is_terminal r.status ≡ true
    → find_run key (apply s runs) ≡ some r
unfolding create_run claim delete_unclaimed_run fail_unclaimed_run fail_running_run
    reconcile_interrupted_runs
apply-terminal (creates now k owner purpose strategy) key runs r e t =
    elim (Option-cases (find_run k runs)) [
      | inl free ↦ rw (free, create_run) (find-append key runs _ r e)
      | inr (taken, f) ↦ rw (f, create_run) e
    ]
apply-terminal (claims now k) key runs r e t =
    find-update (is_at k queued) key _ runs r (λ x. refl) e (ground arith)
apply-terminal (deletes_unclaimed k owner) key runs r e t =
    find-delete (λ x. is_at k queued x && for_user owner x) key runs r e (ground arith)
apply-terminal (fails_unclaimed now k message owner) key runs r e t =
    find-update (λ x. is_at k queued x && for_user owner x) key _ runs r (λ x. refl) e
      (ground arith)
apply-terminal (fails_running now k message) key runs r e t =
    find-update (is_at k running) key _ runs r (λ x. refl) e (ground arith)
apply-terminal (reconciles now stale) key runs r e t =
    find-update (is_interrupted (now - stale)) key _ runs r (λ x. refl) e (ground arith)

-- A completed or failed run keeps its row through any statements of submissions, claims, guarded
-- deletions, guarded failures and reconciliations.
pub terminal_for_good :
    (ss : List Statement) (key : ℕ) (runs : RunTable) (r : Run)
    → find_run key runs ≡ some r
    → is_terminal r.status ≡ true
    → find_run key (apply_all ss runs) ≡ some r
terminal_for_good [] key runs r e t = e
terminal_for_good (s ∷ ss) key runs r e t =
    terminal_for_good ss key (apply s runs) r (apply-terminal s key runs r e t) t
