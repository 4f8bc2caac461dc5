-- ===== src/Runs/JobTests.antt =====
-- A worker's run and its curve at concrete values (src/workers/run_job.py).
use mqs_backtest_visualizer.Prelude.{ℕ, ◌≡◌, refl, true, false, none, some, List, [], ◌∷◌, ok, err}
use mqs_backtest_visualizer.Prelude.Text.{Text, codes}
use mqs_backtest_visualizer.Prelude.Int.{pos}
use mqs_backtest_visualizer.Prelude.Sort.{sort}
use mqs_backtest_visualizer.Prelude.Sort
use mqs_backtest_visualizer.Jobs.State.{user, queued, builtin}
use mqs_backtest_visualizer.Runs.Table.{Run}
use mqs_backtest_visualizer.Runs.Daily.{
  absent, millionths, EquityPoint, EquityRow, Unstorable, equity_rows,
}
use mqs_backtest_visualizer.Runs.Days.{
  InOrder, equity_on, stored_equity, last_sample, equity_rows_lem,
}
use mqs_backtest_visualizer.Runs.Job.{Course, LaunchError, finished, run_job}
use mqs_backtest_visualizer.Runs.Ends.{Ended, run_job-Ended}

abbrev waiting : Run
waiting = record {
  id = 7;
  owner = some 1;
  purpose = user;
  strategy_key = 3;
  status = queued;
  progress_pct = 0;
  cancel_requested = false;
  error_message = none;
  created_at = 1;
  heartbeat_at = none;
  finished_at = none;
}

abbrev sample : ℕ → ℕ → EquityPoint
sample day equity = record { day = day; equity = millionths (pos equity); benchmark = absent }

abbrev curve : List EquityPoint
curve = sample 4 100 ∷ sample 4 110 ∷ sample 5 120 ∷ []

abbrev row_of : ℕ → ℕ → ℕ → EquityRow
row_of seq day equity = record { seq = seq; date = day; equity = pos equity; benchmark = none }

abbrev kept_rows : List EquityRow
kept_rows = row_of 0 4 110 ∷ row_of 1 5 120 ∷ []

curve_by_day : equity_rows curve ≡ ok kept_rows
unfolding equity_rows sort Sort.insert
curve_by_day = refl

equity_rows_lem_example :
    InOrder 0 kept_rows × ((d : ℕ) → equity_on d kept_rows ≡ stored_equity (last_sample d curve))
equity_rows_lem_example = equity_rows_lem curve kept_rows curve_by_day

abbrev good_course : Course
good_course = record {
  schema = ok tt;
  claim_reached = ok tt;
  launch =
      ok (some (record { kind = builtin; class_path = some (codes "m:C"); storage_key = none }));
  load = λ key. err (codes "no store");
  early = ok false;
  answer = λ path. ok (finished curve none);
  prepared = ok tt;
  transaction = ok tt;
  fail_works = true;
  verdict_works = true;
}

abbrev described : LaunchError → Text
described e = codes "RuntimeError"

abbrev result_described : Unstorable → Text
result_described e = codes "ValueError"

run_job-Ended_example :
    let end = run_job false described result_described good_course 9 (some 7) (waiting ∷ []) [] in
    Ended 7 end.1 end.0.0
run_job-Ended_example =
    run_job-Ended false described result_described good_course refl 9 7 (waiting ∷ []) [] waiting
      refl refl
