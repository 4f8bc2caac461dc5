-- ===== src/Technical/Averages.antt =====
-- src/services/technical_indicators.py without the RSI. A close is an exact number of ticks, a
-- score one of millionths, a mean an exact quotient; a time is a number in the unit of the window.
use mqs_backtest_visualizer.Prelude.{
  ℕ, suc, ◌+◌, ◌-◌, ◌*◌, Bool, Option, some, List, [], ◌∷◌, ltb, leb, ◌&&◌, Result, ok, err, ◌>>=◌,
  ◌>>◌, raise_if, length, map, get_elem?, if◌then◌else◌,
}
use mqs_backtest_visualizer.Prelude.Int.{ℤ, pos, negsuc, ◌+ℤ◌, ◌-ℤ◌, ◌*ℤ◌, ltb_ℤ, eq_ℤ}
use mqs_backtest_visualizer.Prelude.Text.{take, drop}

-- `ValueError`s: too few closes, a zero base
pub data BadCloses : Type 0 where
  too_few : ℕ → ℕ → BadCloses
  zero_base : BadCloses

pub record Quotient : Type 0 where
  pub num : ℤ
  pub den : ℕ

abbrev pub whole : ℤ → Quotient
whole a = record { num = a; den = 1 }

abbrev pub over : ℤ → ℕ → Quotient
over a n = record { num = a; den = n }

unfoldable pub plus : Quotient → Quotient → Quotient
plus a b = over (a.num *ℤ pos b.den +ℤ b.num *ℤ pos a.den) (a.den * b.den)

unfoldable pub minus : Quotient → Quotient → Quotient
minus a b = over (a.num *ℤ pos b.den -ℤ b.num *ℤ pos a.den) (a.den * b.den)

unfoldable pub times : Quotient → Quotient → Quotient
times a b = over (a.num *ℤ b.num) (a.den * b.den)

unfoldable pub divided : Quotient → ℕ → Quotient
divided a n = over a.num (a.den * n)

unfoldable pub less : Quotient → Quotient → Bool
less a b = ltb_ℤ (a.num *ℤ pos b.den) (b.num *ℤ pos a.den)

-- `_require_length`
abbrev pub require_length : ℕ → ℕ → Result BadCloses (Unit {0})
require_length count needed = raise_if (ltb count needed) (too_few needed count)

-- `values[-n:]`, for n from 1 on
abbrev pub last_of {ℓ} : {A : Type ℓ} → ℕ → List A → List A
last_of n values = drop (length values - n) values

abbrev pub total : List ℤ → ℤ
total [] = pos 0
total (a ∷ as') = a +ℤ total as'

unfoldable pub simple_moving_average : List ℤ → ℕ → Result BadCloses Quotient
simple_moving_average closes period =
    require_length (length closes) period >> ok (over (total (last_of period closes)) period)

abbrev pub total_of : List Quotient → Quotient
total_of [] = whole (pos 0)
total_of (a ∷ as') = plus a (total_of as')

-- `2.0 / (period + 1)`
abbrev pub smoothing : ℕ → Quotient
smoothing period = over (pos 2) (period + 1)

-- the loop of `_ema_series`
abbrev pub ema_from : ℕ → Quotient → List Quotient → List Quotient
ema_from period ema [] = []
ema_from period ema (v ∷ vs) =
    let next =
      plus (times v (smoothing period)) (times ema (minus (whole (pos 1)) (smoothing period))) in
    next ∷ ema_from period next vs

-- `_ema_series`
abbrev pub ema_series : List Quotient → ℕ → List Quotient
ema_series values period =
    let ema = divided (total_of (take period values)) period in
    ema ∷ ema_from period ema (drop period values)

abbrev pub differences : List Quotient → List Quotient → List Quotient
differences (a ∷ as') (b ∷ bs) = minus a b ∷ differences as' bs
differences _ _ = []

-- `series[-1]`, of a series that is not empty
abbrev pub final : List Quotient → Quotient
final [] = whole (pos 0)
final (a ∷ []) = a
final (a ∷ b ∷ as') = final (b ∷ as')

unfoldable pub macd_histogram : List ℤ → ℕ → ℕ → ℕ → Result BadCloses Quotient
macd_histogram closes fast slow signal =
    let values = map whole closes in
    let line = differences (drop (slow - fast) (ema_series values fast)) (ema_series values slow) in
    require_length (length closes) (slow + signal - 1)
    >> ok (minus (final line) (final (ema_series line signal)))

pub data Regime : Type 0 where
  above below : Regime

unfoldable pub sma_regime : List ℤ → Result BadCloses Regime
unfolding simple_moving_average
sma_regime closes = do
  fast ← simple_moving_average closes 50
  slow ← simple_moving_average closes 200
  ok (if less slow fast then above else below)

-- a quotient by an integer that is not 0
abbrev pub by_integer : ℤ → ℤ → Quotient
by_integer a (pos n) = over a n
by_integer a (negsuc n) = over (pos 0 -ℤ a) (suc n)

abbrev pub ratio_less_one : Option ℤ → Option ℤ → Result BadCloses Quotient
ratio_less_one (some base) (some last) =
    if eq_ℤ base (pos 0) then err zero_base else ok (minus (by_integer last base) (whole (pos 1)))
ratio_less_one _ _ = err zero_base

unfoldable pub momentum : List ℤ → ℕ → Result BadCloses Quotient
momentum closes period =
    require_length (length closes) (period + 1)
    >> ratio_less_one (get_elem? closes (length closes - period - 1))
        (get_elem? closes (length closes - 1))

-- the scores published after `start` and not after `end`, where `start` is so long before `end`
abbrev pub scores_in : ℕ → ℕ → List (ℕ × ℤ) → List ℤ
scores_in end window [] = []
scores_in end window ((published, score) ∷ articles) =
    if ltb end (published + window) && leb published end
    then score ∷ scores_in end window articles
    else scores_in end window articles

abbrev pub mean_score : List ℤ → Quotient
mean_score [] = whole (pos 0)
mean_score (a ∷ as') = over (total (a ∷ as')) (length (a ∷ as') * 1000000)

-- `min(max(q, -1.0), 1.0)`
abbrev pub clamped : Quotient → Quotient
clamped q =
    let least = if less q (whole (negsuc 0)) then whole (negsuc 0) else q in
    if less (whole (pos 1)) least then whole (pos 1) else least

-- `window` is that of seven days, and two of them come before the end; the window before is
-- measured from its own end
unfoldable pub sentiment_window_scores : ℕ → List (ℕ × ℤ) → ℕ → Quotient × Quotient
sentiment_window_scores window articles window_end =
    let current = mean_score (scores_in window_end window articles) in
    let prior = mean_score (scores_in (window_end - window) window articles) in
    (clamped current, minus current prior)
