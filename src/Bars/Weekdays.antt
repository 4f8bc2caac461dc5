-- ===== src/Bars/Weekdays.antt =====
-- The calendar of engine/data/bar_interval.py against a count of its days one by one.
use mqs_backtest_visualizer.Prelude.{
  ℕ, zero, suc, ◌+◌, ◌-◌, ◌*◌, ◌/◌, ◌%◌, ◌≤◌, ◌<◌, max, ◌≡◌, refl, ◌↔◌, Bool, arith, ltb,
  if◌then◌else◌, ok, ◌∙◌, sym, ap, if_split,
}
use native.Mathlib.Nat.{mul-le-mul_right, lt-div-mul-add, le-div_iff_mul-le}
use mqs_backtest_visualizer.Bars.Interval.{
  weekday, partial_week, weekdays_between, bars_per_session, estimate_bar_count,
  check_intraday_size, max_intraday_bars, warmup_sessions, warmup_calendar_days,
}

abbrev pub is_weekday : ℕ → Bool
is_weekday day = ltb (weekday day) 5

-- How many of the `n` days from `day` on are Mondays to Fridays, counted one by one.
abbrev pub count_weekdays : ℕ → ℕ → ℕ
count_weekdays day zero = 0
count_weekdays day (suc n) = count_weekdays day n + (if is_weekday (day + n) then 1 else 0)

same_weekday : (day n : ℕ) → (weekday day + n) % 7 ≡ weekday (day + n)
same_weekday day n = omega arith

partial_week-count : (day n : ℕ) → partial_week (weekday day) n ≡ count_weekdays day n
unfolding partial_week
partial_week-count day zero = refl
partial_week-count day (suc n) = rw (partial_week-count day n, same_weekday day n)

-- Any seven days in a row hold five weekdays.
whole_week : (day n : ℕ) → count_weekdays day (n + 7) ≡ count_weekdays day n + 5
whole_week day n = ground arith

count_weeks :
    (day r weeks : ℕ) → count_weekdays day (r + weeks * 7) ≡ weeks * 5 + count_weekdays day r
count_weeks day r zero = ground arith
count_weeks day r (suc weeks) =
    let e : r + suc weeks * 7 ≡ r + weeks * 7 + 7 = omega arith in
    ap (count_weekdays day) e
    ∙ whole_week day (r + weeks * 7)
    ∙ omega (arith, count_weeks day r weeks)

-- The closed formula counts the weekdays from `start` to `end`, both included.
pub weekdays_between_lem :
    (start end : ℕ) → weekdays_between start end ≡ count_weekdays start (suc end - start)
unfolding weekdays_between
weekdays_between_lem start end =
    if_split (λ n. n ≡ count_weekdays start (suc end - start)) (ltb end start)
      (λ before. let e : suc end - start ≡ 0 = ground arith in ap (count_weekdays start) (sym e))
      λ after.
        let days = end - start + 1 in
        let e : suc end - start ≡ days % 7 + days / 7 * 7 = ground arith in
        rw (partial_week-count start (days % 7))
          (sym (ap (count_weekdays start) e ∙ count_weeks start (days % 7) (days / 7)))

-- At most two of the days of any window in a row that is shorter than a week are off.
short_window : (day r : ℕ) → r < 7 → r ≤ count_weekdays day r + 2
short_window day zero h = omega arith
short_window day (suc zero) h = omega arith
short_window day (suc (suc zero)) h = omega arith
short_window day (suc (suc (suc zero))) h = ground arith
short_window day (suc (suc (suc (suc zero)))) h = ground arith
short_window day (suc (suc (suc (suc (suc zero))))) h = ground arith
short_window day (suc (suc (suc (suc (suc (suc zero)))))) h = ground arith
short_window day (suc (suc (suc (suc (suc (suc (suc r))))))) h = absurd (omega arith)

-- A window of `n` days holds nearly five sevenths of `n` weekdays.
window : (day n : ℕ) → 5 * n ≤ 7 * (count_weekdays day n + 2)
window day n =
    let e : n ≡ n % 7 + n / 7 * 7 = omega arith in
    let w : count_weekdays day n ≡ n / 7 * 5 + count_weekdays day (n % 7) =
      ap (count_weekdays day) e ∙ count_weeks day (n % 7) (n / 7) in
    omega (arith, w, short_window day (n % 7) (omega arith))

ceil_covers : (n b : ℕ) → 0 < b → n ≤ (n + (b - 1)) / b * b
ceil_covers n b h = omega (arith, lt-div-mul-add {a = n + (b - 1)} {b = b} h)

bars_positive : (minutes : ℕ) → 0 < minutes → 0 < bars_per_session minutes
unfolding bars_per_session
bars_positive minutes h =
    (le-div_iff_mul-le {k = minutes} {x = 1} {y = 390 + (minutes - 1)} h).1 (omega arith)

sessions_enough :
    (period minutes : ℕ)
    → 0 < minutes
    → period ≤ warmup_sessions period minutes * bars_per_session minutes
unfolding warmup_sessions
sessions_enough period minutes h =
    omega (arith, ceil_covers (max period 1) (bars_per_session minutes) (bars_positive minutes h))

-- A warm-up reaches far enough back: whatever day it starts on, its calendar days hold sessions for
-- at least `period` bars, if every weekday is a session.
pub warmup_covers :
    (period minutes start : ℕ)
    → 0 < minutes
    → period ≤ count_weekdays start (warmup_calendar_days period minutes) * bars_per_session minutes
unfolding warmup_calendar_days
warmup_covers period minutes start h =
    let days = warmup_calendar_days period minutes in
    let enough : warmup_sessions period minutes ≤ count_weekdays start days =
      omega (arith, window start days) in
    omega
      (arith, sessions_enough period minutes h, mul-le-mul_right (bars_per_session minutes) enough)

-- An accepted window loads no more bars than a run may hold, and a refused one would load more.
pub check_intraday_size_lem :
    (tickers start end minutes : ℕ)
    → (check_intraday_size tickers start end minutes ≡ ok tt) ↔ (
        tickers * count_weekdays start (suc end - start) * bars_per_session minutes
        ≤ max_intraday_bars)
unfolding check_intraday_size estimate_bar_count
check_intraday_size_lem tickers start end minutes =
    rw (sym (weekdays_between_lem start end)) (ground arith)
