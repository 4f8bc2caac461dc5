-- ===== src/Pairing/Tests.antt =====
-- The trade pairing at concrete fills (src/services/trade_pairing.py).
use Prim.Native.String.{String}
use mqs_backtest_visualizer.Prelude.{
  ℕ, ◌*◌, ◌≡◌, refl, none, some, List, [], ◌∷◌, ok, length, All, get_elem?, map,
}
use mqs_backtest_visualizer.Prelude.Int.{ℤ, pos, negsuc, ◌+ℤ◌, ◌-ℤ◌, ◌*ℤ◌}
use mqs_backtest_visualizer.Prelude.Ratio.{whole}
use mqs_backtest_visualizer.Prelude.Sort.{IsSorted, sort}
use mqs_backtest_visualizer.Prelude.Sums.{sum_by_ℤ}
use mqs_backtest_visualizer.Pairing.Fill.{
  Fill, RawFill, Value, Parsers, long, short, normalise, normalise_from, normalise_one, read_number,
  read_timestamp, read_fees, read_ticker, read_direction, upper_is, day_number, in_market_zone,
  comparable, before_key,
}
use mqs_backtest_visualizer.Pairing.Match.{
  TradeRow, start, close_against, close_lots, round_trip, apply_fills, apply_fill, pair_normalised,
  lot_of, open_row, with_ticker, number_rows,
}
use mqs_backtest_visualizer.Pairing.Books.{AllBooks}
use mqs_backtest_visualizer.Pairing.Fifo.{TakesOldest, long_short, close_against_lem}
use mqs_backtest_visualizer.Pairing.Position.{Near, bought_by}
use mqs_backtest_visualizer.Pairing.Sides.{OneSided, apply_fills-OneSided}
use mqs_backtest_visualizer.Pairing.Profit.{row_pnl, paid_by}
use mqs_backtest_visualizer.Pairing.Report.{
  if_open, row_held, row_cost, ClosedFirst, pair_normalised-held, pair_normalised-pnl,
  pair_normalised_order,
}
use mqs_backtest_visualizer.Pairing.Input.{Usable, moving, normalise_sound}

abbrev buy : ℕ → ℕ → ℕ → Fill
buy quantity price index = record {
  direction = long;
  ticker = "AAPL";
  quantity = quantity;
  price = pos price;
  day_of = pos index;
  fee_per_share = whole (pos 0);
  sort_moment = pos index;
  sort_index = index;
}

abbrev sell : ℕ → ℕ → ℕ → Fill
sell quantity price index = record (buy quantity price index) { direction = short }

-- Two lots, a sell across both of them, and one that turns the position short.
abbrev fills : List Fill
fills = buy 10 100 0 ∷ buy 10 110 1 ∷ sell 15 120 2 ∷ sell 9 90 3 ∷ []

paired :
    map {B = ℕ × ℤ} (λ (t : TradeRow). (t.row.quantity, t.row.pnl)) (pair_normalised 0 fills)
    ≡ (10, pos 200) ∷ (5, pos 50) ∷ (5, negsuc 99) ∷ (4, pos 0) ∷ []
unfolding pair_normalised apply_fills apply_fill close_against close_lots round_trip open_row
    with_ticker number_rows ◌*ℤ◌ ◌-ℤ◌
paired = refl

-- A sell of 15 takes the ten shares bought first and five of those bought next.
close_against_lem_example :
    TakesOldest 0
      (sell 15 120 2)
      15
      (lot_of (buy 10 100 0) 10 0 ∷ lot_of (buy 10 110 1) 10 1 ∷ [])
      []
      (close_against 0
        (sell 15 120 2)
        (lot_of (buy 10 100 0) 10 0 ∷ lot_of (buy 10 110 1) 10 1 ∷ []))
close_against_lem_example =
    close_against_lem 0 (sell 15 120 2)
      (lot_of (buy 10 100 0) 10 0 ∷ lot_of (buy 10 110 1) 10 1 ∷ []) []
      (long_short, (long_short, tt)) tt

apply_fills-OneSided_example :
    AllBooks (λ (t : String). OneSided 0) (apply_fills 0 start fills).books
apply_fills-OneSided_example = apply_fills-OneSided 0 start fills tt

pair_normalised-held_example :
    Near
      (2 * 1 * length fills)
      (sum_by_ℤ (bought_by "AAPL") fills)
      (sum_by_ℤ (if_open (row_held "AAPL")) (pair_normalised 1 fills))
pair_normalised-held_example = pair_normalised-held 1 "AAPL" fills

pair_normalised-pnl_example :
    sum_by_ℤ (λ (t : TradeRow). row_pnl t.row) (pair_normalised 0 fills) +ℤ sum_by_ℤ paid_by fills
    ≡ sum_by_ℤ (if_open row_cost) (pair_normalised 0 fills)
pair_normalised-pnl_example = pair_normalised-pnl fills

pair_normalised_order_example :
    ((i : ℕ) (t : TradeRow) → get_elem? (pair_normalised 1 fills) i ≡ some t → t.seq ≡ i)
    × ClosedFirst (pair_normalised 1 fills)
pair_normalised_order_example = pair_normalised_order 1 fills

abbrev parsers : Parsers
parsers = record { float = λ s. none; fromisoformat = λ s. none }

abbrev raw : ℕ → String → ℕ → RawFill
raw day side quantity = record {
  timestamp = Value.day (pos day);
  ticker = Value.string "AAPL";
  signal_type = Value.string side;
  shares = Value.number (pos quantity);
  fill_price = Value.number (pos 100);
  fees = Value.null;
}

-- The first comes last, and the second moves nothing.
abbrev raws : List RawFill
raws = raw 9 "SELL" 5 ∷ raw 3 "BUY" 0 ∷ raw 2 "buy" 8 ∷ []

abbrev read : ℕ → String → ℕ → ℕ → Fill
read day side quantity index = record (buy quantity 100 index) {
  day_of = pos day;
  fee_per_share = record { num = pos 0; den = pos quantity };
  sort_moment = pos (day * 86400);
}

abbrev accepted : List Fill
accepted = read 2 "buy" 8 2 ∷ record (read 9 "SELL" 5 0) { direction = short } ∷ []

raws-accepted : normalise parsers none 0 raws ≡ ok accepted
unfolding normalise normalise_from normalise_one read_number read_timestamp read_fees read_ticker
    read_direction upper_is day_number in_market_zone comparable sort ◌*ℤ◌
raws-accepted = refl

normalise_sound_example :
    IsSorted before_key accepted
    × All (Usable 0) accepted
    × (length accepted ≡ moving parsers none 0 0 raws)
normalise_sound_example = normalise_sound parsers none 0 raws accepted raws-accepted
