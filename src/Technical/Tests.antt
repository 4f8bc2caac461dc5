-- ===== src/Technical/Tests.antt =====
-- The indicators on short series (src/services/technical_indicators.py).
use mqs_backtest_visualizer.Prelude.{◌≡◌, refl, List, [], ◌∷◌, ok, err, arith}
use mqs_backtest_visualizer.Prelude.Int.{ℤ, pos, ◌+ℤ◌, ◌*ℤ◌}
use mqs_backtest_visualizer.Technical.Averages.{
  over, less, too_few, zero_base, minus, simple_moving_average, momentum, sentiment_window_scores,
}
use mqs_backtest_visualizer.Technical.Strength.{Mean, sum, rises, falls, relative_strength_index}
use mqs_backtest_visualizer.Technical.Rsi.{Reads, relative_strength_index_lem}

abbrev closes : List ℤ
closes = pos 100 ∷ pos 104 ∷ pos 101 ∷ pos 103 ∷ []

mean_of_two : simple_moving_average closes 2 ≡ ok (over (pos 204) 2)
unfolding simple_moving_average ◌+ℤ◌
mean_of_two = refl

too_short : simple_moving_average closes 5 ≡ err (too_few 5 4)
unfolding simple_moving_average
too_short = refl

from_zero : momentum (pos 0 ∷ pos 1 ∷ []) 1 ≡ err zero_base
unfolding momentum
from_zero = refl

-- The start of a window does not belong to it, and its end does.
window_ends :
    sentiment_window_scores 7 ((3, pos 500000) ∷ (10, pos 1000000) ∷ []) 10
    ≡ (over (pos 1000000) 1000000, minus (over (pos 1000000) 1000000) (over (pos 500000) 1000000))
unfolding sentiment_window_scores less ◌+ℤ◌ ◌*ℤ◌
window_ends = refl

relative_strength_index_lem_example :
    (r : Mean) × (relative_strength_index closes 2 ≡ ok r)
    × Reads (sum (rises closes)) (sum (falls closes)) r
relative_strength_index_lem_example =
    relative_strength_index_lem closes 2 (omega arith) (omega arith)
