-- ===== src/Pairing/Report.antt =====
-- The rows that `pair_fills` returns (src/services/trade_pairing.py), as its callers see them.
use Prim.Native.String.{String}
use text.Mathlib.Text.{◌==◌ as str_eq}
use mqs_backtest_visualizer.Prelude.{
  ℕ, zero, suc, ◌+◌, ◌*◌, ◌≡◌, refl, Bool, true, false, none, some, List, [], ◌∷◌, ◌++◌, map, arith,
  if◌then◌else◌, length, get_elem?, All, All-append, ◌∙◌,
}
use mqs_backtest_visualizer.Prelude.Int.{ℤ, pos, ◌+ℤ◌, ◌*ℤ◌, int_laws, parts_eq}
use mqs_backtest_visualizer.Prelude.Sums.{sum_by_ℤ, sum_by_ℤ-append, sum_by_ℤ-sort}
use mqs_backtest_visualizer.Pairing.Fill.{Fill}
use mqs_backtest_visualizer.Pairing.Match.{
  Lot, Row, TradeRow, Closing, Books, Pairing, start, round_trip, open_row, apply_fill, apply_fills,
  book_of, pairs_of, with_ticker, opened_before, number_rows, pair_normalised,
}
use mqs_backtest_visualizer.Pairing.Books.{total, pair_value}
use mqs_backtest_visualizer.Pairing.Loop.{Closes, stop, part, full, close_against-Closes}
use mqs_backtest_visualizer.Pairing.Position.{
  Near, signed, bought_by, closed-apply_fill, apply_fills-held,
}
use mqs_backtest_visualizer.Pairing.Profit.{row_pnl, paid_by, apply_fills-pnl}

-- A row without an exit.
abbrev pub is_open : Row → Bool
is_open row = elim row.exit_date [ none ↦ true | some d ↦ false ]

abbrev pub if_open : (Row → ℤ) → TradeRow → ℤ
if_open f t = if is_open t.row then f t.row else pos 0

-- The signed shares of a ticker that an open row reports, and what they cost.
abbrev pub row_held : String → Row → ℤ
row_held t row = if str_eq row.symbol t then signed row.side row.quantity else pos 0

abbrev pub row_cost : Row → ℤ
row_cost row = row.entry_price *ℤ signed row.side row.quantity

IsClosed : Row → Type 0
IsClosed row = is_open row ≡ false

module _ (eps : ℕ) where
  Closes-IsClosed :
      {fill : Fill} {remaining : ℕ} {lots : List Lot} {c : Closing}
      → Closes eps fill remaining lots c
      → All IsClosed c.trips
  unfolding IsClosed round_trip
  Closes-IsClosed (stop h) = tt
  Closes-IsClosed (part o s h) = (refl, tt)
  Closes-IsClosed (full o s h rest) = (refl, Closes-IsClosed rest)

  apply_fills-IsClosed :
      (s : Pairing) (fills : List Fill)
      → All IsClosed s.closed
      → All IsClosed (apply_fills eps s fills).closed
  unfolding apply_fills
  apply_fills-IsClosed s [] h = h
  apply_fills-IsClosed s (fill ∷ fills) h = apply_fills-IsClosed (apply_fill eps s fill) fills (
      rw (closed-apply_fill eps s fill) (
        All-append IsClosed s.closed _ h
          (Closes-IsClosed (close_against-Closes eps fill (book_of fill.ticker s.books)))))

sum-number_rows :
    (f : Row → ℤ) (seq : ℕ) (rows : List Row)
    → sum_by_ℤ (λ (t : TradeRow). f t.row) (number_rows seq rows) ≡ sum_by_ℤ f rows
unfolding number_rows
sum-number_rows f seq [] = refl
sum-number_rows f seq (row ∷ rows) = rw (sum-number_rows f (suc seq) rows)

abbrev when_open : (Row → ℤ) → Row → ℤ
when_open f row = if is_open row then f row else pos 0

sum_closed :
    (f : Row → ℤ) (rows : List Row) → All IsClosed rows → sum_by_ℤ (when_open f) rows ≡ pos 0
unfolding IsClosed
sum_closed f [] h = refl
sum_closed f (row ∷ rows) h = rw (h.0, sum_closed f rows h.1) (omega int_laws)

abbrev of_open : (Row → ℤ) → String → Lot → ℤ
of_open f t lot = f (open_row (t, lot))

sum-map_open :
    (f : Row → ℤ) (pairs : List (String × Lot))
    → sum_by_ℤ f (map open_row pairs) ≡ sum_by_ℤ (pair_value (of_open f)) pairs
sum-map_open f [] = refl
sum-map_open f ((t, lot) ∷ pairs) = rw (sum-map_open f pairs)

sum_opened :
    (f : Row → ℤ) (books : Books)
    → sum_by_ℤ f (map open_row (with_ticker books)) ≡ total (of_open f) books
unfolding with_ticker
sum_opened f books =
    sum-map_open f _ ∙ sum_by_ℤ-sort (pair_value (of_open f)) opened_before (pairs_of books)

-- Every value of the rows is one of the closed trips and one of the open lots.
sum-rows :
    (f : Row → ℤ) (eps : ℕ) (fills : List Fill)
    → let s = apply_fills eps start fills in
      sum_by_ℤ (λ (t : TradeRow). f t.row) (pair_normalised eps fills)
      ≡ sum_by_ℤ f s.closed +ℤ total (of_open f) s.books
unfolding pair_normalised
sum-rows f eps fills =
    let s = apply_fills eps start fills in
    rw (
      sum-number_rows f 0 (s.closed ++ map open_row (with_ticker s.books)),
      sum_by_ℤ-append f s.closed (map open_row (with_ticker s.books)),
      sum_opened f s.books,
    )

sum-if_open :
    (f : Row → ℤ) (eps : ℕ) (fills : List Fill)
    → sum_by_ℤ (if_open f) (pair_normalised eps fills)
      ≡ total (of_open f) (apply_fills eps start fills).books
unfolding open_row
sum-if_open f eps fills =
    let s = apply_fills eps start fills in
    sum-rows (when_open f) eps fills
    ∙ rw (sum_closed f s.closed (apply_fills-IsClosed eps start fills tt)) (omega int_laws)

-- Of every ticker the rows without an exit hold the shares that its fills bought less those that
-- they sold, up to twice the tolerance for each fill; with no tolerance they hold exactly those.
pub pair_normalised-held :
    (eps : ℕ) (t : String) (fills : List Fill)
    → Near
        (2 * eps * length fills)
        (sum_by_ℤ (bought_by t) fills)
        (sum_by_ℤ (if_open (row_held t)) (pair_normalised eps fills))
unfolding open_row
pair_normalised-held eps t fills =
    rw (sum-if_open (row_held t) eps fills) (apply_fills-held eps t fills)

-- Open rows report no profit.
open_pnl : (pairs : List (String × Lot)) → sum_by_ℤ (pair_value (of_open row_pnl)) pairs ≡ pos 0
unfolding open_row
open_pnl [] = refl
open_pnl (p ∷ pairs) = rw (open_pnl pairs) (omega int_laws)

-- With no tolerance, the profit of all rows and what the fills paid, less what they received, add up
-- to what the rows without an exit cost.
pub pair_normalised-pnl :
    (fills : List Fill)
    → sum_by_ℤ (λ (t : TradeRow). row_pnl t.row) (pair_normalised 0 fills) +ℤ sum_by_ℤ paid_by fills
      ≡ sum_by_ℤ (if_open row_cost) (pair_normalised 0 fills)
unfolding open_row
pair_normalised-pnl fills =
    rw (sum-rows row_pnl 0 fills, sum-if_open row_cost 0 fills)
      (omega (
        int_laws,
        parts_eq (open_pnl (pairs_of (apply_fills 0 start fills).books)),
        parts_eq (apply_fills-pnl start fills),
      ))

seq_from :
    (seq i : ℕ) (rows : List Row) (t : TradeRow)
    → get_elem? (number_rows seq rows) i ≡ some t
    → t.seq ≡ seq + i
unfolding number_rows
seq_from seq i [] t h = cc
seq_from seq zero (row ∷ rows) t h = ground arith
seq_from seq (suc i) (row ∷ rows) t h = omega (arith, seq_from (suc seq) i rows t h)

-- The closed trips come first.
abbrev pub ClosedFirst : List TradeRow → Type 0
ClosedFirst [] = Unit
ClosedFirst (t ∷ ts) =
    (is_open t.row ≡ true → All (λ (u : TradeRow). is_open u.row ≡ true) ts) × ClosedFirst ts

numbered_open :
    (seq : ℕ) (pairs : List (String × Lot))
    → All (λ (u : TradeRow). is_open u.row ≡ true) (number_rows seq (map open_row pairs))
unfolding number_rows open_row
numbered_open seq [] = tt
numbered_open seq (p ∷ pairs) = (refl, numbered_open (suc seq) pairs)

open-ClosedFirst :
    (ts : List TradeRow) → All (λ (u : TradeRow). is_open u.row ≡ true) ts → ClosedFirst ts
open-ClosedFirst [] h = tt
open-ClosedFirst (t ∷ ts) h = ((λ e. h.1), open-ClosedFirst ts h.1)

numbered-ClosedFirst :
    (seq : ℕ) (closed : List Row) (pairs : List (String × Lot))
    → All IsClosed closed
    → ClosedFirst (number_rows seq (closed ++ map open_row pairs))
unfolding number_rows IsClosed
numbered-ClosedFirst seq [] pairs h = open-ClosedFirst _ (numbered_open seq pairs)
numbered-ClosedFirst seq (row ∷ closed) pairs h =
    ((λ e. cc), numbered-ClosedFirst (suc seq) closed pairs h.1)

-- The row at place `i` has the number `i`, and the rows with an exit all stand before those without.
pub pair_normalised_order :
    (eps : ℕ) (fills : List Fill)
    → ((i : ℕ) (t : TradeRow) → get_elem? (pair_normalised eps fills) i ≡ some t → t.seq ≡ i)
      × ClosedFirst (pair_normalised eps fills)
unfolding pair_normalised
pair_normalised_order eps fills =
    let s = apply_fills eps start fills in
    (
      (λ i t h. seq_from 0 i (s.closed ++ map open_row (with_ticker s.books)) t h ∙ omega arith),
      numbered-ClosedFirst 0 s.closed (with_ticker s.books)
          (apply_fills-IsClosed eps start fills tt),
    )
