-- ===== src/Runs/Reconcile.antt =====
-- What `reconcile_interrupted_runs` of src/workers/reconciler.py does to each run.
use mqs_backtest_visualizer.Prelude.{
  ℕ, suc, ◌+◌, ◌-◌, ◌≤◌, ◌≡◌, ◌⊎◌, refl, sym, ap, subst, ◌∙◌, Bool, true, false, none, some, [],
  ◌∷◌, arith, Bool-cases, Option-cases, inl, inr, ◌==◌,
}
use mqs_backtest_visualizer.Prelude.Text.{codes}
use mqs_backtest_visualizer.Jobs.State.{Status, queued, running, completed, failed}
use mqs_backtest_visualizer.Runs.Table.{Run, RunTable, update_where, find_run, same_status}
use mqs_backtest_visualizer.Runs.Worker.{is_interrupted, reconcile_interrupted_runs}
use mqs_backtest_visualizer.Runs.Claim.{find-update}

some_inj : (a b : Run) → some a ≡ some b → a ≡ b
some_inj a b e = cc

find_run-head :
    (key : ℕ) (run : Run) (runs : RunTable)
    → (run.id == key) ≡ true
    → find_run key (run ∷ runs) ≡ some run
find_run-head key run runs here = rw here refl

not_both : {b : Bool} → b ≡ true → b ≡ false → ⊥
not_both h k = cc

module _ (test : Run → Bool) where
  -- A row that a statement matches is found as the statement leaves it.
  find-changed :
      (key : ℕ) (change : Run → Run) (runs : RunTable) (r : Run)
      → ((x : Run) → (change x).id ≡ x.id)
      → find_run key runs ≡ some r
      → test r ≡ true
      → find_run key (update_where test change runs).0 ≡ some (change r)
  find-changed key change [] r same e n = cc
  find-changed key change (run ∷ runs) r same e n = elim (Bool-cases (run.id == key)) [
    | inl here ↦
        let found : run ≡ r =
          some_inj run r (subst (λ o. o ≡ some r) (find_run-head key run runs here) e) in
        let t : test run ≡ true = subst (λ x. test x ≡ true) (sym found) n in
        let kept : ((change run).id == key) ≡ true =
          subst (λ i. (i == key) ≡ true) (sym (same run)) here in
        rw t (
          find_run-head key (change run) (update_where test change runs).0 kept
          ∙ ap (λ x. some (change x)) found)
    | inr other ↦ elim (Bool-cases (test run)) [
      | inl t ↦ rw (t, same run, other) (find-changed key change runs r same (ground arith) n)
      | inr f ↦ rw (f, other) (find-changed key change runs r same (ground arith) n)
    ]
  ]

-- A run at work that never gave a sign of life, or gave the last one too long ago.
abbrev pub Interrupted : ℕ → ℕ → Run → Type 0
Interrupted now stale run =
    (run.status ≡ running)
    × ((run.heartbeat_at ≡ none)
        ⊎ ((beat_at : ℕ) × (run.heartbeat_at ≡ some beat_at) × (suc (beat_at + stale) ≤ now)))

abbrev pub stopped : ℕ → Run → Run
stopped now run = record run {
  status = failed;
  error_message = some (codes "Interrupted by server restart");
  finished_at = some now;
}

same_status-running : (s : Status) → same_status s running ≡ true → s ≡ running
same_status-running queued e = cc
same_status-running running e = refl
same_status-running completed e = cc
same_status-running failed e = cc

is_interrupted-Interrupted :
    (now stale : ℕ) (run : Run)
    → is_interrupted (now - stale) run ≡ true
    → Interrupted now stale run
is_interrupted-Interrupted now stale run h = elim (Option-cases run.heartbeat_at) [
  | inl e ↦ (same_status-running run.status (ground arith), inl e)
  | inr (beat_at, e) ↦
      (same_status-running run.status (ground arith), inr (beat_at, e, ground arith))
]

Interrupted-is_interrupted :
    (now stale : ℕ) (run : Run)
    → Interrupted now stale run
    → is_interrupted (now - stale) run ≡ true
Interrupted-is_interrupted now stale run (s, inl e) = rw (s, e) refl
Interrupted-is_interrupted now stale run (s, inr (beat_at, e, l)) = rw (s, e) (ground arith)

-- The reconciliation leaves every row it finds in its place: a run at work without a heartbeat, or
-- whose heartbeat is more than the given seconds old, failed now with the message of a restart, and
-- every other run as it was.
pub reconcile_lem :
    (now stale key : ℕ) (runs : RunTable) (r : Run)
    → find_run key runs ≡ some r
    → (q : Run) × (find_run key (reconcile_interrupted_runs now stale runs).0 ≡ some q)
      × ((Interrupted now stale r × (q ≡ stopped now r))
          ⊎ ((Interrupted now stale r → ⊥) × (q ≡ r)))
unfolding reconcile_interrupted_runs
reconcile_lem now stale key runs r e = elim (Bool-cases (is_interrupted (now - stale) r)) [
  | inl t ↦ (
    stopped now r,
    find-changed (is_interrupted (now - stale)) key (stopped now) runs r (λ x. refl) e t,
    inl (is_interrupted-Interrupted now stale r t, refl),
  )
  | inr f ↦ (
    r,
    find-update (is_interrupted (now - stale)) key (stopped now) runs r (λ x. refl) e f,
    inr (λ i. not_both (Interrupted-is_interrupted now stale r i) f, refl),
  )
]
