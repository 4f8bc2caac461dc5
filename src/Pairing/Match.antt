-- ===== src/Pairing/Match.antt =====
-- The pairing loop of src/services/trade_pairing.py: open lots per ticker, the round trips that a
-- fill closes, and `pair_fills`. `eps` is `_EPS` in the unit of the quantities.
use Prim.Native.String.{String}
use text.Mathlib.Text.{◌==◌ as str_eq}
use mqs_backtest_visualizer.Prelude.{
  ℕ, zero, suc, ◌-◌, min, Bool, true, false, ◌&&◌, Option, none, some, List, [], ◌∷◌, ◌++◌, leb,
  ltb, if◌then◌else◌, Result, ok, ◌>>=◌, map, length,
}
use mqs_backtest_visualizer.Prelude.Int.{ℤ, pos, negsuc, ◌-ℤ◌, ◌*ℤ◌, eq_ℤ}
use mqs_backtest_visualizer.Prelude.Ratio.{Ratio, whole, ◌+ᵣ◌, scale}
use mqs_backtest_visualizer.Prelude.Sort.{sort}
use mqs_backtest_visualizer.Pairing.Fill.{
  Direction, long, short, Fill, RawFill, PairingError, Parsers, Zone, normalise,
}

-- an open slice of a position, waiting for a closing fill
pub record Lot : Type 0 where
  pub direction : Direction
  pub quantity : ℕ
  pub price : ℤ
  pub day_of : ℤ
  pub fee_per_share : Ratio
  pub open_index : ℕ

-- `TradeRow` without `seq`; the two dates are day numbers
pub record Row : Type 0 where
  pub symbol : String
  pub side : Direction
  pub entry_date : ℤ
  pub exit_date : Option ℤ
  pub entry_price : ℤ
  pub exit_price : Option ℤ
  pub quantity : ℕ
  pub pnl : ℤ
  pub return_pct : Ratio
  pub fees : Ratio

pub record TradeRow : Type 0 where
  pub seq : ℕ
  pub row : Row

-- `_LONG` and `_SHORT`
abbrev pub sign : Direction → ℤ
sign long = pos 1
sign short = negsuc 0

-- `lot.direction != fill.direction`
abbrev pub opposes : Direction → Direction → Bool
opposes long short = true
opposes short long = true
opposes _ _ = false

-- `pnl / entry_notional if entry_notional else 0.0`
unfoldable pub return_of : ℤ → ℤ → Ratio
return_of pnl notional =
    if eq_ℤ notional (pos 0) then whole (pos 0) else record { num = pnl; den = notional }

-- `_round_trip`
unfoldable pub round_trip : Lot → Fill → ℕ → Row
unfolding return_of
round_trip lot fill quantity =
    let pnl = (fill.price -ℤ lot.price) *ℤ pos quantity *ℤ sign lot.direction in
    record {
      symbol = fill.ticker;
      side = lot.direction;
      entry_date = lot.day_of;
      exit_date = some fill.day_of;
      entry_price = lot.price;
      exit_price = some fill.price;
      quantity = quantity;
      pnl = pnl;
      return_pct = return_of pnl (lot.price *ℤ pos quantity);
      fees = scale (pos quantity) (lot.fee_per_share +ᵣ fill.fee_per_share);
    }

-- `_open_row`
unfoldable pub open_row : String × Lot → Row
open_row (ticker, lot) = record {
  symbol = ticker;
  side = lot.direction;
  entry_date = lot.day_of;
  exit_date = none;
  entry_price = lot.price;
  exit_price = none;
  quantity = lot.quantity;
  pnl = pos 0;
  return_pct = whole (pos 0);
  fees = scale (pos lot.quantity) lot.fee_per_share;
}

-- What the `while` loop leaves: `remaining`, the lots, and the round trips in the order closed.
pub record Closing : Type 0 where
  pub remaining : ℕ
  pub lots : List Lot
  pub trips : List Row

-- `open_lots`, in the order in which its keys were first used
abbrev pub Books : Type 0
Books = List (String × List Lot)

abbrev pub book_of : String → Books → List Lot
book_of t [] = []
book_of t ((k, lots) ∷ books) = if str_eq k t then lots else book_of t books

abbrev pub put_book : String → List Lot → Books → Books
put_book t lots [] = (t, lots) ∷ []
put_book t lots ((k, old) ∷ books) =
    if str_eq k t then (k, lots) ∷ books else (k, old) ∷ put_book t lots books

pub record Pairing : Type 0 where
  pub books : Books
  pub closed : List Row
  pub open_index : ℕ

abbrev pub start : Pairing
start = record { books = []; closed = []; open_index = 0 }

abbrev pub lot_of : Fill → ℕ → ℕ → Lot
lot_of fill quantity index = record {
  direction = fill.direction;
  quantity = quantity;
  price = fill.price;
  day_of = fill.day_of;
  fee_per_share = fill.fee_per_share;
  open_index = index;
}

module _ (eps : ℕ) where
  -- the test of the `while` loop
  abbrev pub closes : Fill → ℕ → List Lot → Bool
  closes fill remaining [] = false
  closes fill remaining (lot ∷ lots) = ltb eps remaining && opposes lot.direction fill.direction

  -- `lot.quantity -= matched` and the `popleft` of a lot that is used up
  abbrev pub shrink : Lot → ℕ → List Lot → List Lot
  shrink lot matched lots =
      if leb (lot.quantity - matched) eps
      then lots
      else (record lot { quantity = lot.quantity - matched }) ∷ lots

  -- The `while` loop of `pair_fills`; each turn closes one lot or ends the fill.
  unfoldable pub close_lots : ℕ → Fill → ℕ → List Lot → Closing
  unfolding round_trip
  close_lots zero fill remaining lots = record { remaining = remaining; lots = lots; trips = [] }
  close_lots (suc fuel) fill remaining [] = record { remaining = remaining; lots = []; trips = [] }
  close_lots (suc fuel) fill remaining (lot ∷ lots) =
      let matched = min remaining lot.quantity in
      let rest = close_lots fuel fill (remaining - matched) (shrink lot matched lots) in
      if closes fill remaining (lot ∷ lots)
      then record rest { trips = round_trip lot fill matched ∷ rest.trips }
      else record { remaining = remaining; lots = lot ∷ lots; trips = [] }

  -- The loop closes each lot at most once, and one turn more may find the fill used up.
  unfoldable pub close_against : Fill → List Lot → Closing
  unfolding close_lots
  close_against fill lots = close_lots (suc (length lots)) fill fill.quantity lots

  -- The body of the `for` loop of `pair_fills`.
  unfoldable pub apply_fill : Pairing → Fill → Pairing
  unfolding close_against
  apply_fill s fill =
      let closing = close_against fill (book_of fill.ticker s.books) in
      if ltb eps closing.remaining
      then record {
        books =
            put_book fill.ticker (closing.lots ++ lot_of fill closing.remaining s.open_index ∷ [])
              s.books;
        closed = s.closed ++ closing.trips;
        open_index = suc s.open_index;
      }
      else record {
        books = put_book fill.ticker closing.lots s.books;
        closed = s.closed ++ closing.trips;
        open_index = s.open_index;
      }

  unfoldable pub apply_fills : Pairing → List Fill → Pairing
  unfolding apply_fill
  apply_fills s [] = s
  apply_fills s (fill ∷ fills) = apply_fills (apply_fill s fill) fills

abbrev pub with_name : String → List Lot → List (String × Lot)
with_name t [] = []
with_name t (lot ∷ lots) = (t, lot) ∷ with_name t lots

abbrev pub pairs_of : Books → List (String × Lot)
pairs_of [] = []
pairs_of ((t, lots) ∷ books) = with_name t lots ++ pairs_of books

abbrev pub opened_before : String × Lot → String × Lot → Bool
opened_before (s, a) (t, b) = leb a.open_index b.open_index

-- `_with_ticker`
unfoldable pub with_ticker : Books → List (String × Lot)
unfolding sort
with_ticker books = sort opened_before (pairs_of books)

-- `enumerate`
unfoldable pub number_rows : ℕ → List Row → List TradeRow
number_rows seq [] = []
number_rows seq (row ∷ rows) = record { seq = seq; row = row } ∷ number_rows (suc seq) rows

-- the rows that `pair_fills` returns for fills that are already normalised
unfoldable pub pair_normalised : ℕ → List Fill → List TradeRow
unfolding apply_fills number_rows with_ticker open_row
pair_normalised eps fills =
    let s = apply_fills eps start fills in
    number_rows 0 (s.closed ++ map open_row (with_ticker s.books))

unfoldable pub pair_fills :
    Parsers → Option Zone → ℕ → List RawFill → Result PairingError (List TradeRow)
unfolding normalise pair_normalised
pair_fills parsers zone eps raws = do
  fills ← normalise parsers zone eps raws
  ok (pair_normalised eps fills)
