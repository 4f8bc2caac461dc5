-- ===== src/Runs/Outcome.antt =====
-- The verdict of a validation run on its strategy (src/workers/run_job.py, src/workers/reconciler.py).
use mqs_backtest_visualizer.Prelude.{
  ℕ, ◌≡◌, refl, Bool, true, false, Option, none, some, List, [], ◌∷◌, arith, ◌==◌, ◌&&◌,
  if◌then◌else◌, Bool-cases, inl, inr, ◌⊎◌, Option-cases,
}
use mqs_backtest_visualizer.Jobs.State.{
  Strategy, StrategyStatus, Kind, builtin, uploaded, active, failed_validation, Purpose, user,
  validation,
}
use mqs_backtest_visualizer.Jobs.Callbacks.{is_uploaded}
use mqs_backtest_visualizer.Runs.Table.{Run, RunTable, find_run, same_purpose}

-- what `run_job` returns
pub data JobOutcome : Type 0 where
  completed failed skipped : JobOutcome

-- `_VALIDATION_OUTCOMES`
abbrev pub passed_of : JobOutcome → Option Bool
passed_of completed = some true
passed_of failed = some false
passed_of skipped = none

-- `validated_key`
abbrev pub validated_key : ℕ → RunTable → Option ℕ
validated_key run_id runs = elim (find_run run_id runs) [
  | none ↦ none
  | some run ↦ if same_purpose run.purpose validation then some run.strategy_key else none
]

abbrev pub settle_rows : ℕ → Option ℕ → Bool → List Strategy → List Strategy
settle_rows run_id none passed strategies = strategies
settle_rows run_id (some key) passed [] = []
settle_rows run_id (some key) passed (row ∷ rows) =
    (if (row.key == key) && is_uploaded row.kind
      then record row {
        status = if passed then active else failed_validation;
        enabled = passed;
        validation_job = some run_id;
      }
      else row)
    ∷ settle_rows run_id (some key) passed rows

abbrev pub settle_with : ℕ → Option Bool → RunTable → List Strategy → List Strategy
settle_with run_id none runs strategies = strategies
settle_with run_id (some passed) runs strategies =
    settle_rows run_id (validated_key run_id runs) passed strategies

-- `apply_validation_outcome`; `works` says whether the database takes the update
unfoldable pub apply_validation_outcome :
    Bool → ℕ → JobOutcome → RunTable → List Strategy → List Strategy
apply_validation_outcome works run_id outcome runs strategies =
    if works then settle_with run_id (passed_of outcome) runs strategies else strategies

-- `_settle_interrupted_validations`, for the ids and purposes that the reconciliation returned
unfoldable pub settle_interrupted_validations :
    Bool → List (ℕ × Purpose) → RunTable → List Strategy → List Strategy
unfolding apply_validation_outcome
settle_interrupted_validations works [] runs strategies = strategies
settle_interrupted_validations works ((run_id, user) ∷ interrupted) runs strategies =
    settle_interrupted_validations works interrupted runs strategies
settle_interrupted_validations works ((run_id, validation) ∷ interrupted) runs strategies =
    settle_interrupted_validations works interrupted runs
      (apply_validation_outcome works run_id failed runs strategies)

-- The strategy's row is the uploaded one that the run, a validation, was made for.
abbrev pub Concerns : ℕ → RunTable → Strategy → Type 0
Concerns run_id runs row =
    (run : Run) × (find_run run_id runs ≡ some run)
    × (run.purpose ≡ validation)
    × (row.key ≡ run.strategy_key)
    × (row.kind ≡ uploaded)

-- A row before and after: settled if the run concerns it, and otherwise as it was.
abbrev pub Settled : ℕ → RunTable → Bool → StrategyStatus → Strategy → Strategy → Type 0
Settled run_id runs enabled status before after =
    (Concerns run_id runs before
      × (after
          ≡ record before { status = status; enabled = enabled; validation_job = some run_id }))
    ⊎ ((Concerns run_id runs before → ⊥) × (after ≡ before))

abbrev pub Verdict : ℕ → RunTable → JobOutcome → Strategy → Strategy → Type 0
Verdict run_id runs completed before after = Settled run_id runs true active before after
Verdict run_id runs failed before after = Settled run_id runs false failed_validation before after
Verdict run_id runs skipped before after = after ≡ before

-- Row by row, in the same order.
abbrev pub EachRow : (Strategy → Strategy → Type 0) → List Strategy → List Strategy → Type 0
EachRow P [] [] = Unit
EachRow P [] (y ∷ ys) = ⊥
EachRow P (x ∷ xs) [] = ⊥
EachRow P (x ∷ xs) (y ∷ ys) = P x y × EachRow P xs ys

EachRow-refl :
    (P : Strategy → Strategy → Type 0) (rows : List Strategy)
    → ((x : Strategy) → P x x)
    → EachRow P rows rows
EachRow-refl P [] h = tt
EachRow-refl P (x ∷ xs) h = (h x, EachRow-refl P xs h)

is_uploaded_eq : (k : Kind) → is_uploaded k ≡ true → k ≡ uploaded
is_uploaded_eq builtin e = cc
is_uploaded_eq uploaded e = refl

same_purpose-validation : (p : Purpose) → same_purpose p validation ≡ true → p ≡ validation
same_purpose-validation user e = cc
same_purpose-validation validation e = refl

validated_key-some :
    (run_id key : ℕ) (runs : RunTable)
    → validated_key run_id runs ≡ some key
    → (run : Run) × (find_run run_id runs ≡ some run)
      × (run.purpose ≡ validation)
      × (run.strategy_key ≡ key)
validated_key-some run_id key runs e = elim (Option-cases (find_run run_id runs)) [
  | inl f ↦ absurd (ground arith)
  | inr (run, f) ↦ elim (Bool-cases (same_purpose run.purpose validation)) [
    | inl v ↦ (run, f, same_purpose-validation run.purpose v, ground arith)
    | inr n ↦ absurd (ground arith)
  ]
]

validated_key-none :
    (run_id : ℕ) (runs : RunTable) (run : Run)
    → validated_key run_id runs ≡ none
    → find_run run_id runs ≡ some run
    → run.purpose ≡ validation
    → ⊥
validated_key-none run_id runs run e f v =
    let k : validated_key run_id runs ≡ some run.strategy_key = rw (f, v, validated_key) in cc

not_both : {b : Bool} → b ≡ true → b ≡ false → ⊥
not_both h k = cc

Concerns-matches :
    (run_id : ℕ) (runs : RunTable) (key : ℕ) (row : Strategy)
    → Concerns run_id runs row
    → validated_key run_id runs ≡ some key
    → (row.key == key) && is_uploaded row.kind ≡ true
Concerns-matches run_id runs key row (run, f, v, k, u) e =
    let own : validated_key run_id runs ≡ some run.strategy_key = rw (f, v, validated_key) in
    let same : row.key ≡ key = cc in rw u (ground (arith, same))

module _ (run_id : ℕ) (runs : RunTable) (passed : Bool) where
  abbrev RowSettled : Strategy → Strategy → Type 0
  RowSettled = Settled run_id runs passed (if passed then active else failed_validation)

  settle_rows-keyed :
      (key : ℕ) (rows : List Strategy)
      → validated_key run_id runs ≡ some key
      → EachRow RowSettled rows (settle_rows run_id (some key) passed rows)
  settle_rows-keyed key [] e = tt
  settle_rows-keyed key (row ∷ rows) e =
      elim (Bool-cases ((row.key == key) && is_uploaded row.kind)) [
        | inl t ↦
            let (run, f, v, k) = validated_key-some run_id key runs e in
            rw t (
              inl ((run, f, v, ground (arith, k), is_uploaded_eq row.kind (ground arith)), refl),
              settle_rows-keyed key rows e,
            )
        | inr n ↦ rw n (
          inr (
            λ (run, f, v, k, u).
                not_both (Concerns-matches run_id runs key row (run, f, v, k, u) e) n,
            refl,
          ),
          settle_rows-keyed key rows e,
        )
      ]

  settle_rows-Settled :
      (key : Option ℕ) (rows : List Strategy)
      → validated_key run_id runs ≡ key
      → EachRow RowSettled rows (settle_rows run_id key passed rows)
  settle_rows-Settled none rows e =
      EachRow-refl RowSettled rows
        (λ x. inr (λ (run, f, v, k, u). validated_key-none run_id runs run e f v, refl))
  settle_rows-Settled (some key) rows e = settle_rows-keyed key rows e

-- When the database takes the update, the strategies are afterwards, row by row: the uploaded
-- strategy under the key of a run that is there and is a validation is active and enabled if the
-- run completed, refused and disabled if it failed, and notes the run; every other row, and every
-- row after a skipped run, is as it was.
pub apply_validation_outcome_lem :
    (run_id : ℕ) (outcome : JobOutcome) (runs : RunTable) (strategies : List Strategy)
    → EachRow
        (Verdict run_id runs outcome)
        strategies
        (apply_validation_outcome true run_id outcome runs strategies)
unfolding apply_validation_outcome
apply_validation_outcome_lem run_id completed runs strategies =
    settle_rows-Settled run_id runs true (validated_key run_id runs) strategies refl
apply_validation_outcome_lem run_id failed runs strategies =
    settle_rows-Settled run_id runs false (validated_key run_id runs) strategies refl
apply_validation_outcome_lem run_id skipped runs strategies =
    EachRow-refl (Verdict run_id runs skipped) strategies (λ x. refl)
