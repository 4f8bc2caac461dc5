-- ===== src/Technical/Strength.antt =====
-- `relative_strength_index` (src/services/technical_indicators.py). A close is an exact number of
-- ticks; the averages of gains and of losses are exact quotients of natural numbers.
use mqs_backtest_visualizer.Prelude.{
  ℕ, ◌+◌, ◌-◌, ◌*◌, List, [], ◌∷◌, ltb, ◌==◌, Result, ok, ◌>>◌, length, map, if◌then◌else◌,
}
use mqs_backtest_visualizer.Prelude.Int.{ℤ, pos_part, neg_part, ◌-ℤ◌}
use mqs_backtest_visualizer.Prelude.Text.{take, drop}
use mqs_backtest_visualizer.Technical.Averages.{BadCloses, require_length}

pub record Mean : Type 0 where
  pub num : ℕ
  pub den : ℕ

abbrev pub mean_of : ℕ → ℕ → Mean
mean_of n d = record { num = n; den = d }

-- `current - previous` of neighbours
abbrev pub changes : List ℤ → List ℤ
changes [] = []
changes (a ∷ []) = []
changes (a ∷ b ∷ as') = (b -ℤ a) ∷ changes (b ∷ as')

abbrev pub sum : List ℕ → ℕ
sum [] = 0
sum (n ∷ ns) = n + sum ns

-- one turn of the loop on one average
abbrev pub wilder_step : ℕ → Mean → ℕ → Mean
wilder_step period m amount = mean_of (m.num * (period - 1) + amount * m.den) (m.den * period)

abbrev pub wilder_loop : ℕ → Mean → List ℕ → Mean
wilder_loop period m [] = m
wilder_loop period m (n ∷ ns) = wilder_loop period (wilder_step period m n) ns

-- the mean of the first amounts, carried on over the others
abbrev pub wilder : ℕ → List ℕ → Mean
wilder period amounts =
    wilder_loop period (mean_of (sum (take period amounts)) period) (drop period amounts)

-- `100 - 100 / (1 + gain / loss)`, which is not below 0
abbrev pub strength : Mean → Mean → Mean
strength gain loss =
    let rs = mean_of (gain.num * loss.den) (gain.den * loss.num) in
    let sum = rs.den + rs.num in mean_of (100 * sum - 100 * rs.den) sum

-- `min(rsi, 100)`
abbrev pub at_most_hundred : Mean → Mean
at_most_hundred m = if ltb (100 * m.den) m.num then mean_of 100 1 else m

abbrev pub rsi_of : Mean → Mean → Mean
rsi_of gain loss =
    if loss.num == 0
    then if ltb 0 gain.num then mean_of 100 1 else mean_of 100 2
    else at_most_hundred (strength gain loss)

abbrev pub rises : List ℤ → List ℕ
rises closes = map pos_part (changes closes)

abbrev pub falls : List ℤ → List ℕ
falls closes = map neg_part (changes closes)

unfoldable pub relative_strength_index : List ℤ → ℕ → Result BadCloses Mean
relative_strength_index closes period =
    require_length (length closes) (period + 1)
    >> ok (rsi_of (wilder period (rises closes)) (wilder period (falls closes)))
