-- ===== src/Runs/Metrics.antt =====
-- The numbers that src/workers/run_job.py derives from the paired trades: `_round_trip_metrics`,
-- and the trade counts of `_metrics_row`.
use mqs_backtest_visualizer.Prelude.{
  ℕ, ◌-◌, Bool, true, false, Option, none, some, List, [], ◌∷◌, if◌then◌else◌, length,
}
use mqs_backtest_visualizer.Prelude.Int.{ℤ, pos, ◌-ℤ◌, ltb_ℤ}
use mqs_backtest_visualizer.Prelude.Ratio.{Ratio}
use mqs_backtest_visualizer.Prelude.Sums.{sum_by_ℤ}
use mqs_backtest_visualizer.Pairing.Match.{TradeRow}

-- `trade.exit_date is not None`
abbrev pub has_exit : TradeRow → Bool
has_exit trade = elim trade.row.exit_date [ none ↦ false | some day ↦ true ]

abbrev pub keep_trades : (TradeRow → Bool) → List TradeRow → List TradeRow
keep_trades test [] = []
keep_trades test (trade ∷ trades) =
    if test trade then trade ∷ keep_trades test trades else keep_trades test trades

abbrev pub is_win : TradeRow → Bool
is_win trade = ltb_ℤ (pos 0) trade.row.pnl

abbrev pub is_loss : TradeRow → Bool
is_loss trade = ltb_ℤ trade.row.pnl (pos 0)

abbrev pub pnl_of : TradeRow → ℤ
pnl_of trade = trade.row.pnl

unfoldable pub gross_profit : List TradeRow → ℤ
gross_profit closed = sum_by_ℤ pnl_of (keep_trades is_win closed)

unfoldable pub gross_loss : List TradeRow → ℤ
gross_loss closed = pos 0 -ℤ sum_by_ℤ pnl_of (keep_trades is_loss closed)

pub record RoundTripMetrics : Type 0 where
  pub win_rate : Option Ratio
  pub profit_factor : Option Ratio
  pub total_trades : ℕ

abbrev pub metrics_of : List TradeRow → RoundTripMetrics
metrics_of [] = record { win_rate = none; profit_factor = none; total_trades = 0 }
metrics_of (trade ∷ trades) =
    let closed = trade ∷ trades in
    record {
      win_rate =
          some
            (record { num = pos (length (keep_trades is_win closed)); den = pos (length closed) });
      profit_factor =
          if ltb_ℤ (pos 0) (gross_loss closed)
          then some (record { num = gross_profit closed; den = gross_loss closed })
          else none;
      total_trades = length closed;
    }

-- `_round_trip_metrics`
unfoldable pub round_trip_metrics : List TradeRow → RoundTripMetrics
round_trip_metrics trades = metrics_of (keep_trades has_exit trades)

-- `extra["open_lots"]`
unfoldable pub open_lots : List TradeRow → ℕ
unfolding round_trip_metrics
open_lots trades = length trades - (round_trip_metrics trades).total_trades
