-- ===== src/Controls/Fast.antt =====
-- `split_controls` of src/services/run_controls.py, and what it refuses in fast mode.
use Prim.Native.String.{String}
use mqs_backtest_visualizer.Prelude.{
  ◌≡◌, Bool, true, false, Option, none, some, List, arith, not, ◌&&◌, if◌then◌else◌, Result, ok,
  err, ◌>>=◌, Result-cases, inl, inr,
}
use mqs_backtest_visualizer.Prelude.Int.{ℤ, pos, ◌*ℤ◌, eq_ℤ}
use mqs_backtest_visualizer.Bars.Interval.{BarSize}
use mqs_backtest_visualizer.Prelude.Names.{same_set}
use mqs_backtest_visualizer.Controls.Validate.{
  Scalar, UniverseArg, WeightsArg, GateArg, Mode, fast, is_fast, ControlError, BarControls, Weights,
  bar_interval_controls, validated_sentiment_gate, bounded_number, validated_weights, read_universe,
  number, not_number, bad_slippage, bad_commission, fast_commission, signals_refused,
}

-- What the server configures: the cleaning of a ticker, its pattern, the grid, and the news database.
pub record Settings : Type 0 where
  pub clean : String → String
  pub is_ticker : String → Bool
  pub unit : ℤ
  pub tolerance : ℤ
  pub configured : Bool

-- `raw`, by its control keys; `signals` says whether a list of signals that is not empty is there
pub record Submission : Type 0 where
  pub universe : Option UniverseArg
  pub weights : Option WeightsArg
  pub slippage_bps : Option Scalar
  pub commission_per_share : Option Scalar
  pub bar_interval_seconds : Option BarSize
  pub signals : Bool
  pub sentiment_gate : Option GateArg

pub record RunControls : Type 0 where
  pub universe : Option (List String)
  -- the tickers of an equal-weight universe, if it was changed
  pub equal_weights : Option (List String)
  pub weights : Option Weights
  pub slippage_bps : Option ℤ
  pub commission_per_share : Option ℤ
  pub bar : Option BarControls
  pub sentiment_gate : Option ℤ

abbrev pub if_given {ℓ κ} :
    {A : Type ℓ} {B : Type κ}
    → Option A
    → (A → Result ControlError B)
    → Result ControlError (Option B)
if_given none read = ok none
if_given (some a) read = elim (read a) [ ok b ↦ ok (some b) | err e ↦ err e ]

abbrev pub or_default : Option (List String) → List String → List String
or_default none default = default
or_default (some ts) default = ts

abbrev pub changed : List String → Option (List String) → Option (List String)
changed default none = none
changed default (some ts) = if same_set ts default then none else some ts

abbrev pub flatten : Option (Option ℤ) → Option ℤ
flatten none = none
flatten (some o) = o

abbrev pub is_charged : Option ℤ → Bool
is_charged none = false
is_charged (some n) = not (eq_ℤ n (pos 0))

-- `split_controls`, without the strategy's own keys, which it returns as they are
unfoldable pub split_controls :
    Settings → Submission → List String → Mode → Result ControlError (RunControls × List String)
split_controls s raw default mode = do
  universe ← if_given raw.universe (read_universe s.clean s.is_ticker)
  weights ←
      if_given raw.weights
        (λ w. validated_weights s.clean s.unit s.tolerance w (or_default universe default))
  slippage ← bounded_number bad_slippage (pos 1000 *ℤ s.unit) raw.slippage_bps
  commission ← bounded_number bad_commission (pos 100 *ℤ s.unit) raw.commission_per_share
  let rest = do
    bar ← if_given raw.bar_interval_seconds (λ b. bar_interval_controls b mode)
    let last = do
      gate ← if_given raw.sentiment_gate (λ g. validated_sentiment_gate s.unit s.configured g mode)
      ok (
        record {
          universe = universe;
          equal_weights = changed default universe;
          weights = weights;
          slippage_bps = slippage;
          commission_per_share = commission;
          bar = bar;
          sentiment_gate = flatten gate;
        },
        or_default universe default,
      )
    if raw.signals then err signals_refused else last
  if is_fast mode && is_charged commission then err fast_commission else rest

abbrev pub no_overlay : Option BarControls → Bool
no_overlay none = true
no_overlay (some b) = not b.overlays

gate_fast :
    (unit : ℤ) (configured : Bool) (g : Option GateArg) (o : Option (Option ℤ))
    → if_given g (λ a. validated_sentiment_gate unit configured a fast) ≡ ok o
    → flatten o ≡ none
unfolding validated_sentiment_gate
gate_fast unit configured none o h = ground arith
gate_fast unit configured (some GateArg.not_gate) o h = cc
gate_fast unit configured (some (GateArg.gate_of false t)) o h = ground arith
gate_fast unit configured (some (GateArg.gate_of true not_number)) o h = cc
gate_fast unit configured (some (GateArg.gate_of true (number n))) o h = ground arith

bar_fast :
    (b : Option BarSize) (o : Option BarControls)
    → if_given b (λ a. bar_interval_controls a fast) ≡ ok o
    → no_overlay o ≡ true
unfolding bar_interval_controls
bar_fast none o h = ground arith
bar_fast (some b) o h = ground arith

-- What fast mode accepts has no commission, no sentiment gate and no intraday bars.
pub split_controls_fast :
    (s : Settings) (raw : Submission) (default : List String) (c : RunControls) (u : List String)
    → split_controls s raw default fast ≡ ok (c, u)
    → (is_charged c.commission_per_share ≡ false)
      × (c.sentiment_gate ≡ none)
      × (no_overlay c.bar ≡ true)
unfolding split_controls
split_controls_fast s raw default c u h =
    elim (Result-cases (if_given raw.universe (read_universe s.clean s.is_ticker))) [
      | inr (e, x1) ↦ absurd (ground arith)
      | inl (universe, x1) ↦
          elim (Result-cases (
            if_given raw.weights (λ w.
              validated_weights s.clean s.unit s.tolerance w (or_default universe default)))) [
                | inr (e, x2) ↦ absurd (ground arith)
                | inl (weights, x2) ↦
                    elim (Result-cases
                      (bounded_number bad_slippage (pos 1000 *ℤ s.unit) raw.slippage_bps)) [
                        | inr (e, x3) ↦ absurd (ground arith)
                        | inl (slippage, x3) ↦
                            elim (Result-cases (
                              bounded_number bad_commission (pos 100 *ℤ s.unit)
                                raw.commission_per_share)) [
                                  | inr (e, x4) ↦ absurd (ground arith)
                                  | inl (commission, x4) ↦
                                      elim (Result-cases (
                                        if_given raw.bar_interval_seconds
                                          (λ b. bar_interval_controls b fast))) [
                                            | inr (e, x5) ↦ absurd (ground arith)
                                            | inl (bar, x5) ↦
                                                elim (Result-cases (
                                                  if_given raw.sentiment_gate (λ g.
                                                    validated_sentiment_gate s.unit s.configured g
                                                      fast))) [
                                                        | inr (e, x6) ↦ absurd (ground arith)
                                                        | inl (gate, x6) ↦ ground (
                                                          arith,
                                                          bar_fast raw.bar_interval_seconds bar x5,
                                                          gate_fast s.unit s.configured
                                                            raw.sentiment_gate gate x6,
                                                        )
                                                      ]
                                          ]
                                ]
                      ]
              ]
    ]
