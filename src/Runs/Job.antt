-- ===== src/Runs/Job.antt =====
-- One run of a worker (src/workers/run_job.py): `run_job`, `_execute`, `_load_context` and
-- `_resolve_class_path`. What the database, the store, the loader and the engine answer during it
-- is given by a `Course`; an exception is its description. The temporary directory, which is
-- removed at the end, and the settings that go to the engine are left out.
use mqs_backtest_visualizer.Prelude.{
  ℕ, Bool, true, false, Option, none, some, List, [], ◌∷◌, ◌++◌, ◌||◌, Result, ok, err,
  if◌then◌else◌,
}
use mqs_backtest_visualizer.Prelude.Text.{Text, codes}
use mqs_backtest_visualizer.Jobs.State.{Strategy, Kind}
use mqs_backtest_visualizer.Jobs.Callbacks.{is_uploaded}
use mqs_backtest_visualizer.Runs.Table.{RunTable}
use mqs_backtest_visualizer.Runs.Worker.{claim, complete_run, fail_run}
use mqs_backtest_visualizer.Runs.Outcome.{
  JobOutcome, completed, failed, skipped, apply_validation_outcome,
}
use mqs_backtest_visualizer.Runs.Daily.{Amount, EquityPoint, Unstorable, checked_final}

-- the joined row of the run and its strategy, as far as the loading reads it
pub record Launch : Type 0 where
  pub kind : Kind
  pub class_path : Option Text
  pub storage_key : Option Text

-- what `_load_context` raises of its own, or what materializing and importing the source raised
pub data LaunchError : Type 0 where
  disappeared no_storage_key unpublished no_class_path : LaunchError
  load_failed : Text → LaunchError

-- what `run_single` gives: a curve and a final equity, a cancellation, or an error
pub data EngineAnswer : Type 0 where
  finished : List EquityPoint → Option Amount → EngineAnswer
  cancelled : EngineAnswer
  unsuccessful : Option Text → EngineAnswer

pub record Course : Type 0 where
  pub schema : Result Text (Unit {0})
  pub claim_reached : Result Text (Unit {0})
  pub launch : Result Text (Option Launch)
  -- loading the stored source under a key gives the path of its class
  pub load : Text → Result Text Text
  -- whether the first poll finds the run cancelled
  pub early : Result Text Bool
  -- the source's record, the request and the engine
  pub answer : Text → Result Text EngineAnswer
  -- the pairing, the rows of trades and the metrics
  pub prepared : Result Text (Unit {0})
  pub transaction : Result Text (Unit {0})
  -- whether the statement of `_fail` and that of the verdict work
  pub fail_works : Bool
  pub verdict_works : Bool

-- the text that is there and not empty
abbrev pub filled : Option Text → Option Text
filled none = none
filled (some []) = none
filled (some (c ∷ cs)) = some (c ∷ cs)

abbrev pub is_set : Option Text → Bool
is_set none = false
is_set (some t) = true

abbrev pub loaded : Result Text Text → Result LaunchError Text
loaded (ok path) = ok path
loaded (err e) = err (load_failed e)

-- `_materialize_user_strategy`
abbrev pub materialized : (Text → Result Text Text) → Option Text → Result LaunchError Text
materialized load none = err no_storage_key
materialized load (some key) = loaded (load key)

abbrev pub local_path : Option Text → Result LaunchError Text
local_path none = err no_class_path
local_path (some path) = ok path

-- `_resolve_class_path`; `s3` says which store is configured
abbrev pub resolve_class_path : Bool → (Text → Result Text Text) → Launch → Result LaunchError Text
resolve_class_path s3 load launch =
    if is_set (filled launch.storage_key) || is_uploaded launch.kind
    then materialized load (filled launch.storage_key)
    else if s3
    then err unpublished
    else local_path (filled launch.class_path)

abbrev pub context_of : Bool → (Text → Result Text Text) → Option Launch → Result LaunchError Text
context_of s3 load none = err disappeared
context_of s3 load (some launch) = resolve_class_path s3 load launch

abbrev pub cancelled_message : Text
cancelled_message = codes "Cancelled by user"

abbrev pub or_no_text : Option Text → Text
or_no_text none = []
or_no_text (some t) = t

module _ (s3 : Bool) (describe : LaunchError → Text) (describe_result : Unstorable → Text) where
  -- `_load_context`
  abbrev pub load_context : Course → Result Text Text
  load_context c = elim c.launch [
    | err e ↦ err e
    | ok found ↦ elim (context_of s3 c.load found) [ err e ↦ err (describe e) | ok path ↦ ok path ]
  ]

  -- `_persist_success` without the statement on the run
  abbrev pub persist : Course → List EquityPoint → Option Amount → Result Text (Unit {0})
  persist c curve reported = elim c.prepared [
    | err e ↦ err e
    | ok u ↦ elim (checked_final curve reported) [
      | err e ↦ err (describe_result e)
      | ok final ↦ c.transaction
    ]
  ]

  -- `_fail`
  abbrev pub fail : Course → ℕ → ℕ → Text → RunTable → RunTable × JobOutcome
  fail c now key message runs =
      (if c.fail_works then fail_run now key message runs else runs, failed)

  abbrev pub finish : Course → ℕ → ℕ → EngineAnswer → RunTable → RunTable × JobOutcome
  finish c now key (finished curve reported) runs = elim (persist c curve reported) [
    | err e ↦ fail c now key (codes "result could not be stored: " ++ e) runs
    | ok u ↦ (complete_run now key runs, completed)
  ]
  finish c now key cancelled runs = fail c now key cancelled_message runs
  finish c now key (unsuccessful error) runs = fail c now key (or_no_text error) runs

  -- the run of the engine, once the source is loaded
  abbrev pub with_source : Course → ℕ → ℕ → Text → RunTable → RunTable × JobOutcome
  with_source c now key path runs = elim c.early [
    | err e ↦ fail c now key e runs
    | ok true ↦ fail c now key cancelled_message runs
    | ok false ↦ elim (c.answer path) [
      | err e ↦ fail c now key e runs
      | ok answer ↦ finish c now key answer runs
    ]
  ]

  abbrev pub with_claim : Course → ℕ → ℕ → RunTable → RunTable × JobOutcome
  with_claim c now key runs = elim (load_context c) [
    | err e ↦ fail c now key e runs
    | ok path ↦ with_source c now key path runs
  ]

  -- `_execute`
  unfoldable pub execute : Course → ℕ → ℕ → RunTable → RunTable × JobOutcome
  execute c now key runs = elim c.schema [
    | err e ↦ fail c now key e runs
    | ok u ↦ elim c.claim_reached [
      | err e ↦ fail c now key e runs
      | ok v ↦
          let (next, won) = claim now key runs in
          elim won [ true ↦ with_claim c now key next | false ↦ (next, skipped) ]
    ]
  ]

  -- `run_job`, of the parsed id, with the verdict of a validation run at the end
  unfoldable pub run_job :
      Course → ℕ → Option ℕ → RunTable → List Strategy → (RunTable × List Strategy) × JobOutcome
  run_job c now none runs strategies = ((runs, strategies), skipped)
  run_job c now (some key) runs strategies =
      let (after, outcome) = execute c now key runs in
      ((after, apply_validation_outcome c.verdict_works key outcome after strategies), outcome)
