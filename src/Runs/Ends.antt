-- ===== src/Runs/Ends.antt =====
-- Every run that a worker claims ends (src/workers/run_job.py, `run_job`).
use mqs_backtest_visualizer.Prelude.{
  ℕ, ltb, ◌==◌, ◌≡◌, refl, sym, ap, subst, ◌∙◌, inl, inr, Bool, true, false, Bool-cases, Option,
  none, some, List, [], ◌∷◌, ◌++◌, Result-cases, arith,
}
use mqs_backtest_visualizer.Prelude.Text.{Text, codes}
use mqs_backtest_visualizer.Jobs.State
use mqs_backtest_visualizer.Jobs.State.{Strategy, Status}
use mqs_backtest_visualizer.Runs.Table.{Run, RunTable, find_run, update_where, is_at}
use mqs_backtest_visualizer.Runs.Worker.{claim, complete_run, fail_run}
use mqs_backtest_visualizer.Runs.Outcome.{JobOutcome, completed, failed, skipped}
use mqs_backtest_visualizer.Runs.Daily.{Unstorable}
use mqs_backtest_visualizer.Runs.Job.{
  Course, EngineAnswer, finished, cancelled, unsuccessful, LaunchError, load_context, persist, fail,
  finish, with_source, with_claim, execute, run_job, or_no_text, cancelled_message,
}

abbrev pub HasStatus : ℕ → Status → RunTable → Type 0
HasStatus key status runs = (r : Run) × (find_run key runs ≡ some r) × (r.status ≡ status)

-- The outcome of a run that was not skipped, and the status of its row.
abbrev pub Ended : ℕ → JobOutcome → RunTable → Type 0
Ended key completed after = HasStatus key State.completed after
Ended key failed after = HasStatus key State.failed after
Ended key skipped after = ⊥

abbrev IsThere : ℕ → RunTable → Type 0
IsThere key runs = (r : Run) × (find_run key runs ≡ some r)

update_where-IsThere :
    (test : Run → Bool) (change : Run → Run) (key : ℕ) (runs : RunTable)
    → ((r : Run) → (change r).id ≡ r.id)
    → IsThere key runs
    → IsThere key (update_where test change runs).0
update_where-IsThere test change key [] same (r, e) = cc
update_where-IsThere test change key (run ∷ runs) same (r, e) = elim (Bool-cases (test run)) [
  | inl t ↦ elim (Bool-cases (run.id == key)) [
    | inl here ↦ (change run, rw (t, same run, here) refl)
    | inr other ↦
        let (q, f) = update_where-IsThere test change key runs same (r, ground arith) in
        (q, rw (t, same run, other) f)
  ]
  | inr f ↦ elim (Bool-cases (run.id == key)) [
    | inl here ↦ (run, rw (f, here) refl)
    | inr other ↦
        let (q, g) = update_where-IsThere test change key runs same (r, ground arith) in
        (q, rw (f, other) g)
  ]
]

abbrev changed : (Run → Run) → Option Run → Option Run
changed change none = none
changed change (some r) = some (change r)

find_run-here :
    (key : ℕ) (run : Run) (runs : RunTable)
    → (run.id == key) ≡ true
    → find_run key (run ∷ runs) ≡ some run
find_run-here key run runs e = rw e refl

update_where-own :
    (change : Run → Run) (key : ℕ) (runs : RunTable) (r : Run)
    → ((x : Run) → (change x).id ≡ x.id)
    → find_run key runs ≡ some r
    → find_run key (update_where (λ x. x.id == key) change runs).0 ≡ some (change r)
update_where-own change key [] r same e = cc
update_where-own change key (run ∷ runs) r same e = elim (Bool-cases (run.id == key)) [
  | inl here ↦
      let found = sym (find_run-here key run runs here) ∙ e in
      let kept = subst (λ i. (i == key) ≡ true) (sym (same run)) here in
      rw here (
        find_run-here key (change run) (update_where (λ x. x.id == key) change runs).0 kept
        ∙ ap (changed change) found)
  | inr other ↦ rw (other, other) (update_where-own change key runs r same (ground arith))
]

both_ways : (b : Bool) → b ≡ true → b ≡ false → ⊥
both_ways b h k = cc

update_where-hit :
    (test : Run → Bool) (change : Run → Run) (run : Run) (runs : RunTable)
    → test run ≡ true
    → ltb 0 (update_where test change (run ∷ runs)).1 ≡ true
update_where-hit test change run runs t = rw t (ground arith)

update_where-miss :
    (test : Run → Bool) (change : Run → Run) (run : Run) (runs : RunTable)
    → test run ≡ false
    → ltb 0 (update_where test change (run ∷ runs)).1 ≡ ltb 0 (update_where test change runs).1
update_where-miss test change run runs f = rw f refl

-- The statement of `_fail` leaves a run that is there failed, and the last statement of a success
-- leaves it completed.
fail_run-HasStatus :
    (now key : ℕ) (message : Text) (runs : RunTable)
    → IsThere key runs
    → HasStatus key State.failed (fail_run now key message runs)
unfolding fail_run
fail_run-HasStatus now key message runs (r, e) =
    (_, update_where-own _ key runs r (λ x. refl) e, refl)

complete_run-HasStatus :
    (now key : ℕ) (runs : RunTable)
    → IsThere key runs
    → HasStatus key State.completed (complete_run now key runs)
unfolding complete_run
complete_run-HasStatus now key runs (r, e) = (_, update_where-own _ key runs r (λ x. refl) e, refl)

claim-IsThere :
    (now key : ℕ) (runs : RunTable) → IsThere key runs → IsThere key (claim now key runs).0
unfolding claim
claim-IsThere now key runs h = update_where-IsThere _ _ key runs (λ x. refl) h

same_run : (a b : Run) → some a ≡ some b → a ≡ b
same_run a b e = cc

update_where-counts :
    (test : Run → Bool) (change : Run → Run) (key : ℕ) (runs : RunTable) (r : Run)
    → find_run key runs ≡ some r
    → test r ≡ true
    → ltb 0 (update_where test change runs).1 ≡ true
update_where-counts test change key [] r e h = cc
update_where-counts test change key (run ∷ runs) r e h = elim (Bool-cases (test run)) [
  | inl t ↦ update_where-hit test change run runs t
  | inr f ↦ elim (Bool-cases (run.id == key)) [
    | inl here ↦
        let same = same_run run r (sym (find_run-here key run runs here) ∙ e) in
        absurd (both_ways (test run) (subst (λ x. test x ≡ true) (sym same) h) f)
    | inr other ↦
        update_where-miss test change run runs f
        ∙ update_where-counts test change key runs r (ground arith) h
  ]
]

find_run-id :
    (key : ℕ) (runs : RunTable) (r : Run) → find_run key runs ≡ some r → (r.id == key) ≡ true
find_run-id key [] r e = cc
find_run-id key (run ∷ runs) r e = elim (Bool-cases (run.id == key)) [
  | inl here ↦
      subst (λ x. (x.id == key) ≡ true) (same_run run r (sym (find_run-here key run runs here) ∙ e))
        here
  | inr other ↦ find_run-id key runs r (ground arith)
]

claim-wins :
    (now key : ℕ) (runs : RunTable) (r : Run)
    → find_run key runs ≡ some r
    → r.status ≡ State.queued
    → (claim now key runs).1 ≡ true
unfolding claim
claim-wins now key runs r e waits =
    update_where-counts (is_at key State.queued) _ key runs r e
      (rw (find_run-id key runs r e, waits) refl)

module _ (s3 : Bool) (describe : LaunchError → Text) (describe_result : Unstorable → Text)
    (c : Course) (works : c.fail_works ≡ true) (now key : ℕ) where
  abbrev Done : RunTable × JobOutcome → Type 0
  Done (after, outcome) = Ended key outcome after

  Done-Ended : (end : RunTable × JobOutcome) → Done end → Ended key end.1 end.0
  Done-Ended (after, outcome) h = h

  fail-Done :
      (message : Text) (runs : RunTable)
      → IsThere key runs
      → Done (fail s3 describe describe_result c now key message runs)
  fail-Done message runs h = rw works (fail_run-HasStatus now key message runs h)

  finish-Done :
      (answer : EngineAnswer) (runs : RunTable)
      → IsThere key runs
      → Done (finish s3 describe describe_result c now key answer runs)
  finish-Done (finished curve reported) runs h =
      elim (Result-cases (persist s3 describe describe_result c curve reported)) [
        | inl (u, e) ↦ rw (finish, e) (complete_run-HasStatus now key runs h)
        | inr (t, e) ↦ rw (finish, e) (fail-Done (codes "result could not be stored: " ++ t) runs h)
      ]
  finish-Done cancelled runs h = fail-Done cancelled_message runs h
  finish-Done (unsuccessful error) runs h = fail-Done (or_no_text error) runs h

  with_source-Done :
      (path : Text) (runs : RunTable)
      → IsThere key runs
      → Done (with_source s3 describe describe_result c now key path runs)
  with_source-Done path runs h = elim (Result-cases c.early) [
    | inr (t, e) ↦ rw (with_source, e) (fail-Done t runs h)
    | inl (true, e) ↦ rw (with_source, e) (fail-Done cancelled_message runs h)
    | inl (false, e) ↦ elim (Result-cases (c.answer path)) [
      | inr (t, f) ↦ rw (with_source, e, f) (fail-Done t runs h)
      | inl (answer, f) ↦ rw (with_source, e, f) (finish-Done answer runs h)
    ]
  ]

  with_claim-Done :
      (runs : RunTable)
      → IsThere key runs
      → Done (with_claim s3 describe describe_result c now key runs)
  with_claim-Done runs h = elim (Result-cases (load_context s3 describe describe_result c)) [
    | inr (t, e) ↦ rw (with_claim, e) (fail-Done t runs h)
    | inl (path, e) ↦ rw (with_claim, e) (with_source-Done path runs h)
  ]

  -- A queued run is claimed, unless the worker fails before it asks.
  execute-Done :
      (runs : RunTable) (r : Run)
      → find_run key runs ≡ some r
      → r.status ≡ State.queued
      → Done (execute s3 describe describe_result c now key runs)
  unfolding execute
  execute-Done runs r found waits = elim (Result-cases c.schema) [
    | inr (t, e) ↦ rw (execute, e) (fail-Done t runs (r, found))
    | inl (u, e) ↦ elim (Result-cases c.claim_reached) [
      | inr (t, f) ↦ rw (execute, e, f) (fail-Done t runs (r, found))
      | inl (v, f) ↦
          rw (execute, e, f, claim-wins now key runs r found waits)
            (with_claim-Done (claim now key runs).0 (claim-IsThere now key runs (r, found)))
    ]
  ]

  -- A queued run that a worker is given ends: whatever the database, the store, the loader and the
  -- engine answer, if the statement of `_fail` works, the run is afterwards completed or failed, as
  -- `run_job` returns.
  pub run_job-Ended :
      (runs : RunTable) (strategies : List Strategy) (r : Run)
      → find_run key runs ≡ some r
      → r.status ≡ State.queued
      → let end = run_job s3 describe describe_result c now (some key) runs strategies in
        Ended key end.1 end.0.0
  unfolding run_job
  run_job-Ended runs strategies r found waits =
      Done-Ended (execute s3 describe describe_result c now key runs)
        (execute-Done runs r found waits)
