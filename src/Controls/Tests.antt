-- ===== src/Controls/Tests.antt =====
-- The run form's controls at concrete submissions (src/services/run_controls.py).
use Prim.Native.String.{String}
use mqs_backtest_visualizer.Prelude.{◌≡◌, refl, true, false, none, some, List, [], ◌∷◌, ok, err}
use mqs_backtest_visualizer.Prelude.Int.{pos, negsuc, ◌+ℤ◌, ◌*ℤ◌, ◌-ℤ◌}
use mqs_backtest_visualizer.Bars.Interval.{seconds, is_intraday, bar_minutes}
use mqs_backtest_visualizer.Controls.Validate.{
  Scalar, Weights, WeightsArg, weights_of, number, fast, bar_interval_controls, bounded_number,
  validated_weights, read_weights, check_weights, validated_sentiment_gate, gate_of, fast_gate,
}
use mqs_backtest_visualizer.Controls.Fast.{
  Settings, Submission, RunControls, split_controls, is_charged, no_overlay, split_controls_fast,
}
use mqs_backtest_visualizer.Controls.Allocation.{Submits, Allocates, validated_weights_lem}

abbrev same_name : String → String
same_name t = t

abbrev two_names : List String
two_names = "AAPL" ∷ "MSFT" ∷ []

abbrev two_weights : WeightsArg
two_weights = weights_of (("MSFT", number (pos 30)) ∷ ("AAPL", number (pos 50)) ∷ [])

abbrev allocation : Weights
allocation = ("AAPL", pos 50) ∷ ("MSFT", pos 30) ∷ []

allocated : validated_weights same_name (pos 100) (pos 0) two_weights two_names ≡ ok allocation
unfolding validated_weights read_weights check_weights ◌+ℤ◌
allocated = refl

abbrev raw_weights : List (String × Scalar)
raw_weights = ("MSFT", number (pos 30)) ∷ ("AAPL", number (pos 50)) ∷ []

validated_weights_lem_example :
    (entries : Weights) × Submits same_name raw_weights entries
    × Allocates (pos 100) (pos 0) two_names entries allocation
validated_weights_lem_example =
    validated_weights_lem same_name (pos 100) (pos 0) raw_weights two_names allocation allocated

abbrev settings : Settings
settings = record {
  clean = same_name;
  is_ticker = λ t. true;
  unit = pos 100;
  tolerance = pos 0;
  configured = true;
}

abbrev submission : Submission
submission = record {
  universe = none;
  weights = some two_weights;
  slippage_bps = some (number (pos 500));
  commission_per_share = some (number (pos 0));
  bar_interval_seconds = some (seconds 86400);
  signals = false;
  sentiment_gate = none;
}

abbrev accepted : RunControls
accepted = record {
  universe = none;
  equal_weights = none;
  weights = some allocation;
  slippage_bps = some (pos 500);
  commission_per_share = some (pos 0);
  bar = some (record { bar_seconds = 86400; overlays = false });
  sentiment_gate = none;
}

submission-accepted : split_controls settings submission two_names fast ≡ ok (accepted, two_names)
unfolding split_controls bounded_number validated_weights read_weights check_weights
    bar_interval_controls is_intraday bar_minutes ◌+ℤ◌ ◌*ℤ◌
submission-accepted = refl

ungated :
    validated_sentiment_gate (pos 100) true (gate_of true (number (negsuc 19))) fast ≡ err fast_gate
unfolding validated_sentiment_gate ◌-ℤ◌
ungated = refl

split_controls_fast_example :
    (is_charged accepted.commission_per_share ≡ false)
    × (accepted.sentiment_gate ≡ none)
    × (no_overlay accepted.bar ≡ true)
split_controls_fast_example =
    split_controls_fast settings submission two_names accepted two_names submission-accepted
