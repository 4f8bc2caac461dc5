-- ===== src/Bars/Interval.antt =====
-- engine/data/bar_interval.py: which bar sizes a run may use, how many bars a window loads, and how
-- much history a warm-up needs. A date is its proleptic ordinal (`date.toordinal`); quotients that
-- the source rounds up are exact.
use mqs_backtest_visualizer.Prelude.{
  ℕ, zero, suc, ◌+◌, ◌-◌, ◌*◌, ◌/◌, ◌%◌, max, Bool, false, List, [], ◌∷◌, ltb, ◌==◌, ◌||◌,
  if◌then◌else◌, Result, ok, err,
}

-- What a submission gives as the bar size: a Boolean, a number that is a natural, or anything else.
pub data BarSize : Type 0 where
  flag : Bool → BarSize
  seconds : ℕ → BarSize
  other : BarSize

pub data IntervalError : Type 0 where
  bad_interval window_too_large : IntervalError

abbrev pub bar_seconds_choices : List ℕ
bar_seconds_choices = 60 ∷ 300 ∷ 900 ∷ 1800 ∷ 3600 ∷ 86400 ∷ []

abbrev pub session_minutes : ℕ
session_minutes = 390

abbrev pub max_intraday_bars : ℕ
max_intraday_bars = 250000

abbrev pub is_among : ℕ → List ℕ → Bool
is_among n [] = false
is_among n (c ∷ cs) = (n == c) || is_among n cs

unfoldable pub bar_minutes : BarSize → Result IntervalError ℕ
bar_minutes (seconds n) = if is_among n bar_seconds_choices then ok (n / 60) else err bad_interval
bar_minutes _ = err bad_interval

unfoldable pub is_intraday : BarSize → Result IntervalError Bool
unfolding bar_minutes
is_intraday size = elim (bar_minutes size) [
  | ok minutes ↦ ok (ltb minutes session_minutes)
  | err e ↦ err e
]

-- `math.ceil(SESSION_MINUTES / minutes)`
unfoldable pub bars_per_session : ℕ → ℕ
bars_per_session minutes = (session_minutes + (minutes - 1)) / minutes

-- `date.weekday()`: ordinal 1 is a Monday
abbrev pub weekday : ℕ → ℕ
weekday day = (day + 6) % 7

-- the sum of `weekdays_between` over `range(remainder)`
unfoldable pub partial_week : ℕ → ℕ → ℕ
partial_week first zero = 0
partial_week first (suc offset) =
    partial_week first offset + (if ltb ((first + offset) % 7) 5 then 1 else 0)

unfoldable pub weekdays_between : ℕ → ℕ → ℕ
unfolding partial_week
weekdays_between start end =
    let days = end - start + 1 in
    if ltb end start then 0 else days / 7 * 5 + partial_week (weekday start) (days % 7)

unfoldable pub estimate_bar_count : ℕ → ℕ → ℕ → ℕ → ℕ
unfolding weekdays_between bars_per_session
estimate_bar_count tickers start end minutes =
    tickers * weekdays_between start end * bars_per_session minutes

unfoldable pub check_intraday_size : ℕ → ℕ → ℕ → ℕ → Result IntervalError (Unit {0})
unfolding estimate_bar_count
check_intraday_size tickers start end minutes =
    if ltb max_intraday_bars (estimate_bar_count tickers start end minutes)
    then err window_too_large
    else ok tt

-- `math.ceil(max(period, 1) / bars_per_session(minutes))`
unfoldable pub warmup_sessions : ℕ → ℕ → ℕ
unfolding bars_per_session
warmup_sessions period minutes =
    (max period 1 + (bars_per_session minutes - 1)) / bars_per_session minutes

-- `math.ceil(sessions * 7 / 5 * 1.2) + 4`
unfoldable pub warmup_calendar_days : ℕ → ℕ → ℕ
unfolding warmup_sessions
warmup_calendar_days period minutes = (warmup_sessions period minutes * 42 + 24) / 25 + 4
