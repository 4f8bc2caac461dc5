-- ===== src/Bars/Tests.antt =====
-- Bar sizes and windows at concrete inputs (engine/data/bar_interval.py).
use mqs_backtest_visualizer.Prelude.{◌-◌, ◌*◌, ◌≤◌, ◌≡◌, refl, ◌↔◌, suc, true, arith, ok, err}
use mqs_backtest_visualizer.Bars.Interval.{
  weekdays_between, partial_week, bars_per_session, check_intraday_size, estimate_bar_count,
  max_intraday_bars, warmup_calendar_days, window_too_large, is_intraday, bar_minutes, seconds,
  flag, bad_interval,
}
use mqs_backtest_visualizer.Bars.Weekdays.{
  count_weekdays, weekdays_between_lem, warmup_covers, check_intraday_size_lem,
}

-- An hour is intraday; a Boolean is no bar size.
hourly : (is_intraday (seconds 3600) ≡ ok true) × (is_intraday (flag true) ≡ err bad_interval)
unfolding is_intraday bar_minutes
hourly = (refl, refl)

-- A Wednesday to the Tuesday after next.
weekdays_between_lem_example : weekdays_between 3 16 ≡ count_weekdays 3 (suc 16 - 3)
weekdays_between_lem_example = weekdays_between_lem 3 16

fortnight : weekdays_between 3 16 ≡ 10
unfolding weekdays_between partial_week
fortnight = refl

warmup_covers_example :
    200 ≤ count_weekdays 738000 (warmup_calendar_days 200 60) * bars_per_session 60
warmup_covers_example = warmup_covers 200 60 738000 (omega arith)

check_intraday_size_lem_example :
    (check_intraday_size 5 1 700 1 ≡ ok tt)
    ↔ (5 * count_weekdays 1 (suc 700 - 1) * bars_per_session 1 ≤ max_intraday_bars)
check_intraday_size_lem_example = check_intraday_size_lem 5 1 700 1

too_large : check_intraday_size 5 1 700 1 ≡ err window_too_large
unfolding check_intraday_size estimate_bar_count weekdays_between partial_week bars_per_session
too_large = refl
