-- ===== src/Lib.antt =====
-- A verification library for the backend of the MQS backtest visualizer.
--
-- The program runs a user's strategy on historical prices and shows the result. An upload is read without
-- running it (the scan) and kept in the strategy store. A submission is
-- checked (its bar size and window), becomes a job of the transient job manager, which runs the engine in
-- a worker process; the engine may not buy into bad news (the sentiment gate); the engine's fills are
-- paired into trades, and the report is saved.
--
-- * Prelude (children Tests, Lists, Raises, Int, Ratio, Sort, Text, Dict, Sums, Names):
--   Boolean tests, lists, results, integers over the native naturals, quotients, a stable sort, dictionaries and sums.
-- * Pairing models src/services/trade_pairing.py. Pairing/Fill has the raw fills, the readers of each field
--   and `_normalise`; Pairing/Match has the lots, `_round_trip`, `_open_row`, the loop of `pair_fills` and
--   `pair_fills` itself. Pairing/Loop relates the loop to a relation on lots, and
--   Pairing/Fifo to the order of shares (Pairing/Shares); the other files hold proofs.
-- * Jobs models src/workers/job_manager.py, with the worker's writes of src/workers/report_job.py and the
--   insert of src/repositories/reports.py. Jobs/State is the manager's state, Jobs/Callbacks is `_fail`,
--   `_settle_validation` and `_on_done`, Jobs/Manager is the rest of `JobManager` and
--   `_recover_validation_outcomes`, Jobs/Schedule puts requests, workers, pool and clock in sequence,
--   which stands for no code of its own.
-- * Bars models engine/data/bar_interval.py: Bars/Interval the functions, Bars/Weekdays the calendar.
-- * Gate models engine/core/sentiment_gate.py: Gate/Score the gate, Gate/Window and Gate/Blocks its meaning.
-- * Runs models the table of runs: Runs/Table the statements of src/repositories/runs.py, Runs/Worker those
--   of src/workers/run_job.py and src/workers/reconciler.py; Runs/Claim, Runs/Reconcile, Runs/Wanted,
--   Runs/Listing and Runs/Tally hold proofs. Runs/Heartbeat is `_RunHeartbeat`, Runs/Outcome the verdict of a validation run, and
--   Runs/Metrics `_round_trip_metrics`.
-- * Controls models src/services/run_controls.py: Controls/Validate the validators, Controls/Fast
--   `split_controls`, Controls/Allocation a proof about the weights.
-- * Scan models src/services/strategy_validation/scanning.py. Scan/Tree is Python's syntax tree and
--   `ast.walk`, with turns for all nodes; Scan/Rules is `_violation`, Scan/Classes `_strategy_class_nodes`
--   and `scan_source`, Scan/Issues `_deduplicated`, Scan/Contract `_contract_issues` and
--   `_contract_warnings`, Scan/Indicators `_indicator_issues`, Scan/Sources the readers of the engine's
--   files, Scan/Check `check_compatibility`. The fixed point of `_strategy_class_nodes` has one turn more
--   than there are classes. Scan/Distinct, Scan/Closure, Scan/Verdict and Scan/Told hold proofs.
-- * Store models the two stores of src/integrations/strategy_store.py. Store/Names is
--   `_key_segments`, `_object_name` and the keys of objects; Store/Bucket is put, get, exists and delete
--   over the calls of a bucket, a parameter; Store/Materialize is materialize. The loop of delete has a turn
--   for each key, since a batch takes one or more. Store/Objects states what a bucket documents; it and
--   Store/Paths, Store/Segments, Store/Sweep, Store/Raises, Store/Errors and Store/Apart
--   hold proofs. Store/Disk is the
--   disk-backed store, and Store/Alike compares the two.
-- * Runs/Job is a worker's whole run, `run_job` and `_execute`, over a Course that gives what the database,
--   the store, the loader and the engine answer; Runs/Daily is `_equity_rows` and the checks of
--   `_persist_success`. Runs/Ends and Runs/Days hold their proofs.
-- * Technical models src/services/technical_indicators.py: Technical/Strength the RSI, Technical/Averages the
--   other functions, over exact quotients. Technical/Rsi holds a proof.
-- Numbers. Floats are exact: quantities, prices and scores are integers on a grid, quotients are kept as
-- numerator and denominator, and `_EPS` is the parameter `eps` on the grid of the quantities. NaN and
-- infinity occur only where Runs/Daily turns them away. Python's own parsers of numbers and datetimes, `str.upper` on tickers and time
-- zones are parameters.
--
-- Bounds. The pairing loop gets a turn for each lot and one more, since each turn takes a lot away or
-- ends the fill. Schedules are lists of events of any length.
--
-- Assumptions. Each operation of the job manager holds its lock, so that operations are the steps that
-- interleave; a callback finds its job in the manager, since only finished jobs are removed; a write to
-- the shared dictionary does not fail. A save or a settlement may fail, as the backend of the event says.
--
-- Not modelled: SQL, HTTP, process pools, pandas, and the engine, which is a vendored copy of
-- another project (engine/VENDORED_FROM).
pub mod Prelude
pub mod Pairing
pub mod Jobs
pub mod Bars
pub mod Gate
pub mod Runs
pub mod Controls
pub mod Scan
pub mod Store
pub mod Technical
