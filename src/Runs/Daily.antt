-- ===== src/Runs/Daily.antt =====
-- The numbers that a finished run stores (src/workers/run_job.py): `_decimal` and its kin,
-- `_equity_rows` and the checks of `_persist_success`. An amount that `float` reads is a whole
-- number of millionths, so that `quantize` leaves it; a day is its ordinal.
use mqs_backtest_visualizer.Prelude.{
  ℕ, suc, ◌+◌, Bool, Option, none, some, List, [], ◌∷◌, ltb, leb, Result, ok, err, ◌>>=◌,
  if◌then◌else◌,
}
use mqs_backtest_visualizer.Prelude.Int.{ℤ, pos_part, neg_part, ◌-ℤ◌}
use mqs_backtest_visualizer.Prelude.Dict.{Dict, insert}
use mqs_backtest_visualizer.Prelude.Sort.{sort}

-- what is stored: nothing, what `float` refuses, NaN or an infinity, or an amount
pub data Amount : Type 0 where
  absent unreadable not_finite : Amount
  millionths : ℤ → Amount

-- why a result is refused
pub data Unstorable : Type 0 where
  equity_number final_number no_curve other_final : Unstorable

abbrev pub magnitude : ℤ → ℕ
magnitude v = pos_part v + neg_part v

-- `_decimal`; the limit is in millionths
abbrev pub decimal : Amount → ℕ → Option ℤ
decimal absent limit = none
decimal unreadable limit = none
decimal not_finite limit = none
decimal (millionths v) limit = if leb limit (magnitude v) then none else some v

-- `_MONEY_LIMIT` and `_RATIO_LIMIT`
abbrev pub money_limit : ℕ
money_limit = 100000000000000000000

abbrev pub ratio_limit : ℕ
ratio_limit = 10000000000000000

-- `_money`
abbrev pub money : Amount → Option ℤ
money a = decimal a money_limit

-- `_ratio`
abbrev pub ratio : Amount → Option ℤ
ratio a = decimal a ratio_limit

-- `_required`
abbrev pub required : Option ℤ → Unstorable → Result Unstorable ℤ
required none field = err field
required (some v) field = ok v

-- `_money_required`
abbrev pub money_required : Amount → Unstorable → Result Unstorable ℤ
money_required a field = required (money a) field

pub record EquityPoint : Type 0 where
  pub day : ℕ
  pub equity : Amount
  pub benchmark : Amount

pub record EquityRow : Type 0 where
  pub seq : ℕ
  pub date : ℕ
  pub equity : ℤ
  pub benchmark : Option ℤ

-- the loop that fills `by_day`
abbrev pub by_day : Dict EquityPoint → List EquityPoint → Dict EquityPoint
by_day d [] = d
by_day d (p ∷ ps) = by_day (insert p.day p d) ps

abbrev pub day_before : ℕ × EquityPoint → ℕ × EquityPoint → Bool
day_before a b = leb a.0 b.0

abbrev pub row_at : ℕ → ℕ → EquityPoint → ℤ → EquityRow
row_at seq day p equity = record {
  seq = seq;
  date = day;
  equity = equity;
  benchmark = money p.benchmark;
}

-- the loop over the sorted days
abbrev pub rows_from : ℕ → Dict EquityPoint → Result Unstorable (List EquityRow)
rows_from seq [] = ok []
rows_from seq ((day, p) ∷ rest) = elim (money_required p.equity equity_number) [
  | err e ↦ err e
  | ok equity ↦ elim (rows_from (suc seq) rest) [
    | err e ↦ err e
    | ok rows ↦ ok (row_at seq day p equity ∷ rows)
  ]
]

-- `_equity_rows`
unfoldable pub equity_rows : List EquityPoint → Result Unstorable (List EquityRow)
equity_rows curve = rows_from 0 (sort day_before (by_day [] curve))

abbrev pub last_equity : ℤ → List EquityRow → ℤ
last_equity equity [] = equity
last_equity equity (r ∷ rs) = last_equity r.equity rs

-- `abs(reported_final - final_equity) > Decimal("0.0001")`
abbrev pub agrees : ℤ → Option Amount → Result Unstorable ℤ
agrees final none = ok final
agrees final (some reported) = do
  value ← money_required reported final_number
  if ltb 100 (magnitude (value -ℤ final)) then err other_final else ok final

abbrev pub final_of : List EquityRow → Option Amount → Result Unstorable ℤ
final_of [] reported = err no_curve
final_of (r ∷ rs) reported = agrees (last_equity r.equity rs) reported

-- The checks of `_persist_success` before its transaction: the final equity that it stores. What
-- else it prepares, the trades and the metrics, may raise as well.
unfoldable pub checked_final : List EquityPoint → Option Amount → Result Unstorable ℤ
unfolding equity_rows
checked_final curve reported = do rows ← equity_rows curve; final_of rows reported
