-- ===== src/Pairing/Profit.antt =====
-- What pairing does to money (src/services/trade_pairing.py): the realised profit of the round trips
-- accounts for the cash that the fills moved and for the cost of the lots left open.
use Prim.Native.String.{String}
use mqs_backtest_visualizer.Prelude.{
  ℕ, ◌-◌, ◌≤◌, ◌≡◌, true, false, List, [], ◌∷◌, arith, ltb, leb, Bool-cases, inl, inr, ap, ◌∙◌, sym,
}
use mqs_backtest_visualizer.Prelude.Int.{
  ℤ, pos, ◌+ℤ◌, ◌-ℤ◌, ◌*ℤ◌, int_laws, parts_eq, *ℤ--ℤ, *ℤ_comm, *ℤ-+ℤ_right, *ℤ-zero,
}
use mqs_backtest_visualizer.Prelude.Sums.{sum_by_ℤ, sum_by_ℤ-append}
use mqs_backtest_visualizer.Pairing.Fill.{Direction, long, short, Fill}
use mqs_backtest_visualizer.Pairing.Match.{
  Lot, Row, Closing, Pairing, sign, opposes, lot_of, round_trip, close_against, apply_fill,
  apply_fills, book_of,
}
use mqs_backtest_visualizer.Pairing.Books.{total, total-put_book}
use mqs_backtest_visualizer.Pairing.Loop.{Closes, stop, part, full, close_against-Closes}
use mqs_backtest_visualizer.Pairing.Position.{
  signed, signed_laws, lot_net, left_by, books-apply_fill, closed-apply_fill,
}

signed_negative : (n : ℕ) → signed short n ≡ pos 0 -ℤ pos n
signed_negative n = omega signed_laws

times_sign : (x : ℤ) (d : Direction) (n : ℕ) → x *ℤ pos n *ℤ sign d ≡ x *ℤ signed d n
unfolding signed
times_sign x long n = omega int_laws
times_sign x short n =
    rw (signed_negative n, *ℤ_comm x (pos 0 -ℤ pos n), *ℤ--ℤ (pos 0) (pos n) x) (omega int_laws)

-- `(exit - entry) * quantity * direction`, by the two prices
gain_parts :
    (d : Direction) (x y : ℤ) (n : ℕ)
    → (x -ℤ y) *ℤ pos n *ℤ sign d ≡ x *ℤ signed d n -ℤ y *ℤ signed d n
gain_parts d x y n =
    rw (*ℤ--ℤ x y (pos n), *ℤ--ℤ (x *ℤ pos n) (y *ℤ pos n) (sign d), times_sign, times_sign)

signed_split : (d : Direction) (n q : ℕ) → n ≤ q → signed d q ≡ signed d n +ℤ signed d (q - n)
signed_split long n q h = omega signed_laws
signed_split short n q h = omega signed_laws

signed_cancel : (d e : Direction) (n : ℕ) → opposes d e ≡ true → signed d n +ℤ signed e n ≡ pos 0
signed_cancel long short n h = omega signed_laws
signed_cancel short long n h = omega signed_laws
signed_cancel long long n h = cc
signed_cancel short short n h = cc

-- The price of a position splits with its shares, and two opposite ones of a price cancel.
price_split :
    (x : ℤ) (d : Direction) (n q : ℕ)
    → n ≤ q
    → x *ℤ signed d q ≡ x *ℤ signed d n +ℤ x *ℤ signed d (q - n)
price_split x d n q h = ap (λ s. x *ℤ s) (signed_split d n q h) ∙ *ℤ-+ℤ_right x _ _

price_cancel :
    (x : ℤ) (d e : Direction) (n : ℕ)
    → opposes d e ≡ true
    → x *ℤ signed d n +ℤ x *ℤ signed e n ≡ pos 0
price_cancel x d e n h =
    sym (*ℤ-+ℤ_right x _ _) ∙ ap (λ s. x *ℤ s) (signed_cancel d e n h) ∙ *ℤ-zero x

price_none : (x : ℤ) (d : Direction) → x *ℤ signed d 0 ≡ pos 0
unfolding signed
price_none x long = *ℤ-zero x
price_none x short = *ℤ-zero x

-- What the shares of a lot cost, less what those that were sold short brought in.
abbrev pub lot_cost : String → Lot → ℤ
lot_cost t lot = lot.price *ℤ lot_net lot

abbrev pub row_pnl : Row → ℤ
row_pnl row = row.pnl

-- What a fill paid, or minus what it received.
abbrev pub paid_by : Fill → ℤ
paid_by fill = fill.price *ℤ signed fill.direction fill.quantity

trip_pnl :
    (lot : Lot) (fill : Fill) (n : ℕ)
    → (round_trip lot fill n).pnl
      ≡ fill.price *ℤ signed lot.direction n -ℤ lot.price *ℤ signed lot.direction n
unfolding round_trip
trip_pnl lot fill n = gain_parts lot.direction fill.price lot.price n

Closes-pnl :
    {fill : Fill} {remaining : ℕ} {lots : List Lot} {c : Closing} (t : String)
    → Closes 0 fill remaining lots c
    → sum_by_ℤ row_pnl c.trips
        +ℤ sum_by_ℤ (lot_cost t) lots
        +ℤ fill.price *ℤ signed fill.direction remaining
      ≡ sum_by_ℤ (lot_cost t) c.lots +ℤ fill.price *ℤ signed fill.direction c.remaining
Closes-pnl t (stop h) = omega int_laws
Closes-pnl {fill} t (part {remaining = n} {lot = lot} {lots = lots} o s h) =
    let kept : leb (lot.quantity - n) 0 ≡ false = ground arith in
    rw kept (
      omega (
        int_laws,
        parts_eq (trip_pnl lot fill n),
        parts_eq (price_split lot.price lot.direction n lot.quantity (omega arith)),
        parts_eq (price_cancel fill.price lot.direction fill.direction n o),
        parts_eq (price_none fill.price fill.direction),
      ))
Closes-pnl {fill} t (full {remaining = n} {lot = lot} {lots = lots} o s h rest) = omega (
  int_laws,
  parts_eq (trip_pnl lot fill lot.quantity),
  parts_eq (price_split fill.price fill.direction lot.quantity n h),
  parts_eq (price_cancel fill.price lot.direction fill.direction lot.quantity o),
  parts_eq (Closes-pnl t rest),
)

left_by-cost :
    (t : String) (fill : Fill) (index : ℕ) (c : Closing)
    → sum_by_ℤ (lot_cost t) (left_by 0 fill index c)
      ≡ sum_by_ℤ (lot_cost t) c.lots +ℤ fill.price *ℤ signed fill.direction c.remaining
left_by-cost t fill index c = elim (Bool-cases (ltb 0 c.remaining)) [
  | inl e ↦
      rw (e, sum_by_ℤ-append (lot_cost t) c.lots (lot_of fill c.remaining index ∷ []))
        (omega int_laws)
  | inr e ↦
      let none_left : c.remaining ≡ 0 = ground arith in
      rw (e, none_left, price_none) (omega int_laws)
]

book_pnl :
    (t : String) (fill : Fill) (index : ℕ) (lots : List Lot)
    → sum_by_ℤ row_pnl (close_against 0 fill lots).trips
        +ℤ sum_by_ℤ (lot_cost t) lots
        +ℤ paid_by fill
      ≡ sum_by_ℤ (lot_cost t) (left_by 0 fill index (close_against 0 fill lots))
book_pnl t fill index lots =
    Closes-pnl t (close_against-Closes 0 fill lots)
    ∙ sym (left_by-cost t fill index (close_against 0 fill lots))

-- With no tolerance, the profit that a fill realises and what it paid are what the lots gain in cost.
apply_fill-pnl :
    (s : Pairing) (fill : Fill)
    → sum_by_ℤ row_pnl (apply_fill 0 s fill).closed +ℤ total lot_cost s.books +ℤ paid_by fill
      ≡ sum_by_ℤ row_pnl s.closed +ℤ total lot_cost (apply_fill 0 s fill).books
apply_fill-pnl s fill =
    let lots = book_of fill.ticker s.books in
    let c = close_against 0 fill lots in
    let after = left_by 0 fill s.open_index c in
    rw (books-apply_fill 0 s fill, closed-apply_fill 0 s fill)
      (omega (
        int_laws,
        parts_eq (sum_by_ℤ-append row_pnl s.closed c.trips),
        parts_eq (total-put_book lot_cost fill.ticker after s.books),
        parts_eq (book_pnl fill.ticker fill s.open_index lots),
      ))

pub apply_fills-pnl :
    (s : Pairing) (fills : List Fill)
    → sum_by_ℤ row_pnl (apply_fills 0 s fills).closed
        +ℤ total lot_cost s.books
        +ℤ sum_by_ℤ paid_by fills
      ≡ sum_by_ℤ row_pnl s.closed +ℤ total lot_cost (apply_fills 0 s fills).books
unfolding apply_fills
apply_fills-pnl s [] = omega int_laws
apply_fills-pnl s (fill ∷ fills) = omega (
  int_laws,
  parts_eq (apply_fill-pnl s fill),
  parts_eq (apply_fills-pnl (apply_fill 0 s fill) fills),
)
