-- ===== src/Runs/Tests.antt =====
-- The table of runs at concrete rows (src/repositories/runs.py).
use mqs_backtest_visualizer.Prelude.{
  ℕ, ◌≡◌, refl, true, false, Option, none, some, List, [], ◌∷◌, length, map,
}
use mqs_backtest_visualizer.Prelude.Sort.{sort}
use mqs_backtest_visualizer.Jobs.State.{user, Status, queued, running, completed}
use mqs_backtest_visualizer.Runs.Table.{
  Run, RunTable, RunFilters, find_run, list_runs, delete_unclaimed_run, fail_unclaimed_run,
}
use mqs_backtest_visualizer.Runs.Worker.{claim, reconcile_interrupted_runs}
use mqs_backtest_visualizer.Runs.Claim.{
  Statement, claims, reconciles, deletes_unclaimed, apply_all, claimed_once, terminal_for_good,
}
use mqs_backtest_visualizer.Runs.Reconcile.{Interrupted, stopped, reconcile_lem}
use mathlib.Core.List.{Memᴰ}
use mqs_backtest_visualizer.Prelude.Text.{take}
use mqs_backtest_visualizer.Runs.Listing.{all_rows, NewestFirst, list_runs_lem}
use mqs_backtest_visualizer.Runs.Wanted.{Wanted}
use mqs_backtest_visualizer.Runs.Table.{drop}
use mqs_backtest_visualizer.Jobs.State.{Strategy, uploaded, validating, validation}
use mqs_backtest_visualizer.Prelude.{◌⊎◌, suc, ◌*◌}
use mqs_backtest_visualizer.Prelude.Int.{ℤ, pos, negsuc}
use mqs_backtest_visualizer.Prelude.Ratio.{whole}
use mqs_backtest_visualizer.Pairing.Fill.{long}
use mqs_backtest_visualizer.Pairing.Match.{TradeRow}
use mqs_backtest_visualizer.Runs.Heartbeat.{
  no_row, flag, Call, progress, asks, new_heartbeat, visits, Spaced, visits-Spaced, on_progress,
  should_cancel, poll,
}
use mqs_backtest_visualizer.Runs.Outcome.{
  JobOutcome, apply_validation_outcome, EachRow, Verdict, apply_validation_outcome_lem,
}
use mqs_backtest_visualizer.Runs.Metrics.{round_trip_metrics, open_lots}
use mqs_backtest_visualizer.Runs.Tally.{ratio_of, round_trip_metrics_lem}

abbrev row : ℕ → Status → Option ℕ → Run
row key status beat_at = record {
  id = key;
  owner = some 1;
  purpose = user;
  strategy_key = 3;
  status = status;
  progress_pct = 0;
  cancel_requested = false;
  error_message = none;
  created_at = key;
  heartbeat_at = beat_at;
  finished_at = none;
}

abbrev rows : RunTable
rows =
    row 1 queued none
    ∷ row 2 running (some 50)
    ∷ row 3 running (some 95)
    ∷ row 4 completed (some 20)
    ∷ []

first_claim : (claim 60 1 rows).1 ≡ true
unfolding claim
first_claim = refl

-- Of the two runs at work one has stopped beating.
stopped_one : (reconcile_interrupted_runs 100 30 rows).1 ≡ 1
unfolding reconcile_interrupted_runs
stopped_one = refl

claimed_once_example :
    ((claim 61 1 (claim 60 1 rows).0).1 ≡ false)
    × ((delete_unclaimed_run 1 (some 1) (claim 60 1 rows).0).1 ≡ false)
    × ((fail_unclaimed_run 61 1 [] (some 1) (claim 60 1 rows).0).1 ≡ false)
claimed_once_example = claimed_once 60 61 1 [] (some 1) rows

abbrev statements : List Statement
statements = claims 60 1 ∷ reconciles 100 30 ∷ deletes_unclaimed 4 (some 1) ∷ []

terminal_for_good_example :
    find_run 4 (apply_all statements rows) ≡ some (row 4 completed (some 20))
terminal_for_good_example =
    terminal_for_good statements 4 rows (row 4 completed (some 20)) refl refl

-- Run 2 stopped beating at 50, and is failed; run 3 is kept.
reconcile_lem_example :
    (q : Run) × (find_run 2 (reconcile_interrupted_runs 100 30 rows).0 ≡ some q)
    × ((Interrupted 100 30 (row 2 running (some 50)) × (q ≡ stopped 100 (row 2 running (some 50))))
        ⊎ ((Interrupted 100 30 (row 2 running (some 50)) → ⊥) × (q ≡ row 2 running (some 50))))
reconcile_lem_example = reconcile_lem 100 30 2 rows (row 2 running (some 50)) refl

abbrev running_of_1 : RunFilters
running_of_1 = record {
  search = none;
  status = some running;
  strategy_key = none;
  purpose = some user;
  owner_id = some 1;
}

second_page : map (λ (r : Run). r.id) (list_runs running_of_1 2 1 rows).0 ≡ 2 ∷ []
unfolding list_runs sort
second_page = refl

list_runs_lem_example :
    ((r : Run)
      → (Memᴰ r (all_rows running_of_1 rows) → Memᴰ r rows × Wanted running_of_1 r)
        × (Memᴰ r rows → Wanted running_of_1 r → Memᴰ r (all_rows running_of_1 rows)))
    × NewestFirst (all_rows running_of_1 rows)
    × ((p size : ℕ)
        → ((list_runs running_of_1 (suc p) size rows).0
            ≡ take size (drop (p * size) (all_rows running_of_1 rows)))
          × ((list_runs running_of_1 (suc p) size rows).1 ≡ length (all_rows running_of_1 rows)))
list_runs_lem_example = list_runs_lem running_of_1 rows

-- The engine calls five times in a second and a half; the database is visited twice.
abbrev calls : List Call
calls =
    asks 0 (flag false)
    ∷ progress 400 1 no_row
    ∷ progress 400 2 no_row
    ∷ progress 400 3 (flag true)
    ∷ asks 300 no_row
    ∷ []

two_visits : visits 5 (new_heartbeat 1000) calls ≡ 5 ∷ 1205 ∷ []
unfolding on_progress should_cancel poll
two_visits = refl

visits-Spaced_example : Spaced 1000 none (visits 5 (new_heartbeat 1000) calls)
visits-Spaced_example = visits-Spaced 5 (new_heartbeat 1000) calls tt

abbrev strategy : Strategy
strategy = record {
  key = 3;
  kind = uploaded;
  status = validating;
  enabled = false;
  validation_job = none;
}

abbrev validation_row : Run
validation_row = record (row 5 running (some 90)) { purpose = validation }

apply_validation_outcome_lem_example :
    EachRow
      (Verdict 5 (validation_row ∷ rows) JobOutcome.failed)
      (strategy ∷ [])
      (apply_validation_outcome true 5 JobOutcome.failed (validation_row ∷ rows) (strategy ∷ []))
apply_validation_outcome_lem_example =
    apply_validation_outcome_lem 5 JobOutcome.failed (validation_row ∷ rows) (strategy ∷ [])

abbrev trade : ℕ → Option ℤ → ℤ → TradeRow
trade seq exit pnl = record {
  seq = seq;
  row = record {
    symbol = "AAPL";
    side = long;
    entry_date = pos 1;
    exit_date = exit;
    entry_price = pos 10;
    exit_price = exit;
    quantity = 2;
    pnl = pnl;
    return_pct = whole (pos 0);
    fees = whole (pos 0);
  };
}

abbrev trades : List TradeRow
trades =
    trade 0 (some (pos 2)) (pos 8) ∷ trade 1 (some (pos 3)) (negsuc 4) ∷ trade 2 none (pos 0) ∷ []

round_trip_metrics_lem_example :
    ((round_trip_metrics trades).total_trades ≡ 2)
    × (open_lots trades ≡ 1)
    × ((round_trip_metrics trades).win_rate ≡ ratio_of 1 2)
    × ((round_trip_metrics trades).profit_factor ≡ ratio_of 8 5)
round_trip_metrics_lem_example = round_trip_metrics_lem trades
