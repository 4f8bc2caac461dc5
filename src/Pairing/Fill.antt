-- ===== src/Pairing/Fill.antt =====
-- The input side of src/services/trade_pairing.py: what a raw fill holds, how each field is read,
-- and `_normalise`, which validates every fill and sorts them by time.
-- Floats are exact numbers on a grid: `shares` counts units of the grid and `eps` is `_EPS` in that
-- unit; prices and fees are integers in a unit of their own. A time is a number of seconds.
use Prim.Native.String.{String}
use mqs_backtest_visualizer.Prelude.{
  ℕ, suc, ◌-◌, ◌/◌, Bool, true, false, ◌&&◌, ◌||◌, Option, none, some, List, [], ◌∷◌, leb, ◌==◌,
  if◌then◌else◌, Result, ok, err, ◌>>=◌, map,
}
use mqs_backtest_visualizer.Prelude.Int.{ℤ, pos, negsuc, pos_part, ◌+ℤ◌, ◌-ℤ◌, ◌*ℤ◌, ltb_ℤ, leb_ℤ}
use mqs_backtest_visualizer.Prelude.Text.{codes}
use mqs_backtest_visualizer.Prelude.Ratio.{Ratio}
use mqs_backtest_visualizer.Prelude.Sort.{sort}

-- A datetime: its wall clock, and the offset from UTC if it is aware.
pub record Moment : Type 0 where
  pub wall : ℤ
  pub offset : Option ℤ

-- A time zone gives an offset to each UTC time and to each wall clock.
pub record Zone : Type 0 where
  pub offset_at_utc : ℤ → ℤ
  pub offset_at_wall : ℤ → ℤ

-- The value under a key of a raw fill; `null` is a missing key, too.
pub data Value : Type 0 where
  null other : Value
  number : ℤ → Value
  string : String → Value
  moment : Moment → Value
  day : ℤ → Value

pub record RawFill : Type 0 where
  pub timestamp : Value
  pub ticker : Value
  pub signal_type : Value
  pub shares : Value
  pub fill_price : Value
  pub fees : Value

pub data Key : Type 0 where
  shares_key fill_price_key fees_key : Key

pub data Problem : Type 0 where
  missing not_numeric : Key → Problem
  bad_ticker bad_signal_type not_iso unusable_timestamp : Problem

-- The `ValueError` of the fill at `index`.
pub record PairingError : Type 0 where
  pub index : ℕ
  pub problem : Problem

pub data Direction : Type 0 where
  long short : Direction

pub record Fill : Type 0 where
  pub direction : Direction
  pub ticker : String
  pub quantity : ℕ
  pub price : ℤ
  pub day_of : ℤ
  pub fee_per_share : Ratio
  pub sort_moment : ℤ
  pub sort_index : ℕ

-- How Python reads a text as a number and as a datetime.
pub record Parsers : Type 0 where
  pub float : String → Option ℤ
  pub fromisoformat : String → Option Moment

-- the letters that `str.upper` makes an ASCII letter: a to z, the long s and the dotless i
abbrev to_upper : ℕ → ℕ
to_upper c =
    if leb b'a' c && leb c b'z' then c - 32 else if c == 383 then 83 else if c == 305 then 73 else c

abbrev eq_codes : List ℕ → List ℕ → Bool
eq_codes [] [] = true
eq_codes (a ∷ xs) (b ∷ ys) = (a == b) && eq_codes xs ys
eq_codes _ _ = false

-- `value.upper() == word`, for the words BUY and SELL: no letter but those of `to_upper` becomes one of
-- theirs.
unfoldable pub upper_is : String → String → Bool
upper_is value word = eq_codes (map to_upper (codes value)) (codes word)

-- floor(wall / 86400): the day on which a wall clock falls
unfoldable pub day_number : ℤ → ℤ
day_number (pos n) = pos (n / 86400)
day_number (negsuc n) = negsuc (n / 86400)

-- `datetime(value.year, value.month, value.day)`
abbrev midnight : ℤ → Moment
midnight d = record { wall = d *ℤ pos 86400; offset = none }

module _ (parsers : Parsers) where
  unfoldable pub read_number : Key → ℕ → Value → Result PairingError ℤ
  read_number key index null = err (record { index = index; problem = missing key })
  read_number key index (number n) = ok n
  read_number key index (string s) = elim (parsers.float s) [
    | none ↦ err (record { index = index; problem = not_numeric key })
    | some n ↦ ok n
  ]
  read_number key index _ = err (record { index = index; problem = not_numeric key })

  unfoldable pub read_timestamp : ℕ → Value → Result PairingError Moment
  read_timestamp index (moment m) = ok m
  read_timestamp index (day d) = ok (midnight d)
  read_timestamp index (string String.[]) =
      err (record { index = index; problem = unusable_timestamp })
  read_timestamp index (string s) = elim (parsers.fromisoformat s) [
    | none ↦ err (record { index = index; problem = not_iso })
    | some m ↦ ok m
  ]
  read_timestamp index _ = err (record { index = index; problem = unusable_timestamp })

  -- An absent or null fee column means no fees.
  unfoldable pub read_fees : ℕ → Value → Result PairingError ℤ
  unfolding read_number
  read_fees index null = ok (pos 0)
  read_fees index value = read_number fees_key index value

unfoldable pub read_ticker : ℕ → Value → Result PairingError String
read_ticker index (string String.[]) = err (record { index = index; problem = bad_ticker })
read_ticker index (string s) = ok s
read_ticker index _ = err (record { index = index; problem = bad_ticker })

unfoldable pub read_direction : ℕ → Value → Result PairingError Direction
unfolding upper_is
read_direction index (string s) =
    if upper_is s "BUY"
    then ok long
    else if upper_is s "SELL"
    then ok short
    else err (record { index = index; problem = bad_signal_type })
read_direction index _ = err (record { index = index; problem = bad_signal_type })

-- `astimezone(zone)` for an aware moment, `replace(tzinfo=zone)` for a naive one
unfoldable pub in_market_zone : Option Zone → Moment → Moment
in_market_zone none m = m
in_market_zone (some zone) m = elim m.offset [
  | none ↦ record { wall = m.wall; offset = some (zone.offset_at_wall m.wall) }
  | some off ↦
      let utc = m.wall -ℤ off in
      record { wall = utc +ℤ zone.offset_at_utc utc; offset = some (zone.offset_at_utc utc) }
]

-- `_comparable`: the naive UTC time, which the sort goes by
unfoldable pub comparable : Moment → ℤ
comparable m = elim m.offset [ none ↦ m.wall | some off ↦ m.wall -ℤ off ]

abbrev pub push : Option Fill → List Fill → List Fill
push none fills = fills
push (some f) fills = f ∷ fills

module _ (parsers : Parsers) (zone : Option Zone) (eps : ℕ) where
  -- The loop body of `_normalise`; `none` is its `continue`.
  unfoldable pub normalise_one : ℕ → RawFill → Result PairingError (Option Fill)
  normalise_one index raw = do
    quantity ← read_number parsers shares_key index raw.shares
    let rest = do
      stamp ← read_timestamp parsers index raw.timestamp
      let at = in_market_zone zone stamp
      fees ← read_fees parsers index raw.fees
      direction ← read_direction index raw.signal_type
      ticker ← read_ticker index raw.ticker
      price ← read_number parsers fill_price_key index raw.fill_price
      ok (
          some (record {
            direction = direction;
            ticker = ticker;
            quantity = pos_part quantity;
            price = price;
            day_of = day_number at.wall;
            fee_per_share = record { num = fees; den = quantity };
            sort_moment = comparable at;
            sort_index = index;
          }))
    if leb_ℤ quantity (pos eps) then ok none else rest

  unfoldable pub normalise_from : ℕ → List RawFill → Result PairingError (List Fill)
  normalise_from index [] = ok []
  normalise_from index (raw ∷ raws) = do
    one ← normalise_one index raw
    rest ← normalise_from (suc index) raws
    ok (push one rest)

-- the order of the tuples `(moment, index)`
abbrev pub before_key : Fill → Fill → Bool
before_key a b =
    ltb_ℤ a.sort_moment b.sort_moment
    || (leb_ℤ a.sort_moment b.sort_moment && leb a.sort_index b.sort_index)

-- `_normalise`
unfoldable pub normalise :
    Parsers → Option Zone → ℕ → List RawFill → Result PairingError (List Fill)
normalise parsers zone eps raws = do
  fills ← normalise_from parsers zone eps 0 raws
  ok (sort before_key fills)
