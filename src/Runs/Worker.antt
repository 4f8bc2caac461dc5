-- ===== src/Runs/Worker.antt =====
-- The statements of src/workers/run_job.py and src/workers/reconciler.py on the table of runs.
use mqs_backtest_visualizer.Prelude.{
  ℕ, ◌-◌, Bool, true, none, some, List, [], leb, ltb, ◌==◌, ◌&&◌, map,
}
use mqs_backtest_visualizer.Prelude.Sort.{sort}
use mqs_backtest_visualizer.Prelude.Text.{Text, codes, take}
use mqs_backtest_visualizer.Jobs.State.{queued, running, completed, failed}
use mqs_backtest_visualizer.Runs.Table.{
  Run, RunTable, update_where, is_at, same_status, failed_row, select_where,
}

-- `_claim`
unfoldable pub claim : ℕ → ℕ → RunTable → RunTable × Bool
claim now key runs =
    let (next, count) =
      update_where (is_at key queued)
        (λ r. record r {
          status = running;
          heartbeat_at = some now;
          progress_pct = 0;
          error_message = none;
        })
        runs in
    (next, ltb 0 count)

-- the statement of `_RunHeartbeat._beat_forever`
unfoldable pub beat : ℕ → ℕ → RunTable → RunTable
beat now key runs =
    (update_where (λ r. r.id == key) (λ r. record r { heartbeat_at = some now }) runs).0

-- the last statement of `_persist_success`, without the columns of the results
unfoldable pub complete_run : ℕ → ℕ → RunTable → RunTable
complete_run now key runs =
    (update_where (λ r. r.id == key)
      (λ r. record r {
        status = completed;
        progress_pct = 100;
        error_message = none;
        finished_at = some now;
      })
      runs).0

-- `message or "the run failed without a reason"`
abbrev pub reason_of : Text → Text
reason_of [] = codes "the run failed without a reason"
reason_of message = message

-- `_fail`
unfoldable pub fail_run : ℕ → ℕ → Text → RunTable → RunTable
fail_run now key message runs =
    (update_where (λ r. r.id == key) (failed_row now (reason_of message)) runs).0

unfoldable pub fail_running_run : ℕ → ℕ → Text → RunTable → RunTable × Bool
fail_running_run now key message runs =
    let (next, count) =
      update_where (is_at key running) (failed_row now (reason_of message)) runs in
    (next, ltb 0 count)

-- `heartbeat_at IS NULL OR heartbeat_at < cutoff`
abbrev pub is_stale : ℕ → Run → Bool
is_stale cutoff run = elim run.heartbeat_at [ none ↦ true | some beat_at ↦ ltb beat_at cutoff ]

abbrev pub is_interrupted : ℕ → Run → Bool
is_interrupted cutoff run = same_status run.status running && is_stale cutoff run

-- `reconcile_interrupted_runs` on the table of runs; `stale_seconds` is its setting
unfoldable pub reconcile_interrupted_runs : ℕ → ℕ → RunTable → RunTable × ℕ
reconcile_interrupted_runs now stale_seconds runs =
    update_where (is_interrupted (now - stale_seconds))
      (λ r. record r {
        status = failed;
        error_message = some (codes "Interrupted by server restart");
        finished_at = some now;
      })
      runs

-- `orphaned_queued_run_ids`
unfoldable pub orphaned_queued_run_ids : ℕ → RunTable → List ℕ
orphaned_queued_run_ids limit runs =
    map (λ (r : Run). r.id)
      (take limit (
        sort (λ (a b : Run). leb a.created_at b.created_at)
          (select_where (λ r. same_status r.status queued) runs)))
