-- ===== src/Controls/Validate.antt =====
-- src/services/run_controls.py: the validators of the run form's controls. A submission comes as
-- its control keys, `none` for a missing one, and the other keys. Numbers are integers on a grid on
-- which `unit` is 1.0. `str.strip().upper()` and the ticker pattern are parameters.
use Prim.Native.String.{String}
use text.Mathlib.Text.{◌==◌ as str_eq}
use mqs_backtest_visualizer.Prelude.{
  ℕ, Bool, true, false, Option, none, some, List, [], ◌∷◌, ◌++◌, leb, ◌==◌, ◌&&◌, ◌||◌, not,
  if◌then◌else◌, length, Result, ok, err, ◌>>=◌,
}
use mqs_backtest_visualizer.Prelude.Int.{ℤ, pos, ◌+ℤ◌, ◌-ℤ◌, ltb_ℤ, leb_ℤ}
use mqs_backtest_visualizer.Prelude.Names.{has_name, same_set}
use mqs_backtest_visualizer.Prelude.Sums.{sum_by_ℤ}
use mqs_backtest_visualizer.Bars.Interval.{BarSize, seconds, is_intraday}

-- a finite number, or anything that the form refuses as one
pub data Scalar : Type 0 where
  number : ℤ → Scalar
  not_number : Scalar

pub data UniverseArg : Type 0 where
  tickers : List (Option String) → UniverseArg
  not_list : UniverseArg

pub data WeightsArg : Type 0 where
  weights_of : List (String × Scalar) → WeightsArg
  not_dict : WeightsArg

-- `sentimentGate`: its `enabled`, if it is an object with a Boolean there, and its threshold
pub data GateArg : Type 0 where
  gate_of : Bool → Scalar → GateArg
  not_gate : GateArg

pub data Mode : Type 0 where
  event fast : Mode

pub data ControlError : Type 0 where
  bad_universe bad_ticker duplicate_ticker bad_weights duplicate_weight bad_weight weights_miss :
      ControlError
  no_weight too_much_weight bad_slippage bad_commission fast_commission bad_bar fast_intraday :
      ControlError
  signals_refused bad_gate bad_threshold fast_gate no_news_database : ControlError

-- `_bar_interval_controls`: the bar size, and whether it overlays the engine's configuration
pub record BarControls : Type 0 where
  pub bar_seconds : ℕ
  pub overlays : Bool

abbrev pub is_fast : Mode → Bool
is_fast event = false
is_fast fast = true

abbrev pub seconds_of : BarSize → ℕ
seconds_of (seconds n) = n
seconds_of _ = 0

unfoldable pub bar_interval_controls : BarSize → Mode → Result ControlError BarControls
bar_interval_controls size mode = elim (is_intraday size) [
  | err e ↦ err bad_bar
  | ok intraday ↦
      if not intraday
      then ok (record { bar_seconds = seconds_of size; overlays = false })
      else if is_fast mode
      then err fast_intraday
      else ok (record { bar_seconds = seconds_of size; overlays = true })
]

-- `_TIMEFRAME_LABELS`, in minutes, and `timeframe_label`; a run without the key was daily
unfoldable pub timeframe_minutes : Option BarSize → ℕ
timeframe_minutes (some (seconds n)) =
    if n == 60
    then 1
    else if n == 300
    then 5
    else if n == 900
    then 15
    else if n == 1800
    then 30
    else if n == 3600
    then 60
    else 1440
timeframe_minutes _ = 1440

-- `_validated_sentiment_gate`; `configured` is `settings.news_database_configured`
unfoldable pub validated_sentiment_gate : ℤ → Bool → GateArg → Mode → Result ControlError (Option ℤ)
validated_sentiment_gate unit configured not_gate mode = err bad_gate
validated_sentiment_gate unit configured (gate_of false threshold) mode = ok none
validated_sentiment_gate unit configured (gate_of true not_number) mode = err bad_threshold
validated_sentiment_gate unit configured (gate_of true (number n)) mode =
    if not (leb_ℤ (pos 0 -ℤ unit) n && leb_ℤ n (pos 0))
    then err bad_threshold
    else if is_fast mode
    then err fast_gate
    else if not configured
    then err no_news_database
    else ok (some n)

-- One of `slippageBps` and `commissionPerShare`.
unfoldable pub bounded_number : ControlError → ℤ → Option Scalar → Result ControlError (Option ℤ)
bounded_number e maximum none = ok none
bounded_number e maximum (some not_number) = err e
bounded_number e maximum (some (number n)) =
    if leb_ℤ (pos 0) n && leb_ℤ n maximum then ok (some n) else err e

abbrev pub Weights : Type 0
Weights = List (String × ℤ)

abbrev pub names_of : Weights → List String
names_of [] = []
names_of ((t, w) ∷ ws) = t ∷ names_of ws

abbrev pub weight_in : String → Weights → ℤ
weight_in t [] = pos 0
weight_in t ((n, w) ∷ ws) = if str_eq n t then w else weight_in t ws

-- the loop of `_validated_weights`
unfoldable pub read_weights :
    (String → String) → Weights → List (String × Scalar) → Result ControlError Weights
read_weights clean read [] = ok read
read_weights clean read ((key, not_number) ∷ raw) =
    if has_name (clean key) (names_of read) then err duplicate_weight else err bad_weight
read_weights clean read ((key, number n) ∷ raw) =
    let rest = read_weights clean (read ++ (clean key, n) ∷ []) raw in
    if has_name (clean key) (names_of read)
    then err duplicate_weight
    else if ltb_ℤ n (pos 0)
    then err bad_weight
    else rest

abbrev pub weight_value : String × ℤ → ℤ
weight_value (t, w) = w

abbrev pub in_order_of : List String → Weights → Weights
in_order_of [] ws = []
in_order_of (t ∷ ts) ws = (t, weight_in t ws) ∷ in_order_of ts ws

-- the checks of `_validated_weights` after its loop
unfoldable pub check_weights : ℤ → ℤ → List String → Weights → Result ControlError Weights
check_weights unit tolerance universe ws =
    if not (same_set (names_of ws) universe)
    then err weights_miss
    else if leb_ℤ (sum_by_ℤ weight_value ws) (pos 0)
    then err no_weight
    else if ltb_ℤ (unit +ℤ tolerance) (sum_by_ℤ weight_value ws)
    then err too_much_weight
    else ok (in_order_of universe ws)

-- `_validated_weights`
unfoldable pub validated_weights :
    (String → String) → ℤ → ℤ → WeightsArg → List String → Result ControlError Weights
unfolding read_weights check_weights
validated_weights clean unit tolerance not_dict universe = err bad_weights
validated_weights clean unit tolerance (weights_of raw) universe = do
  ws ← read_weights clean [] raw
  check_weights unit tolerance universe ws

abbrev pub clean_all : (String → String) → List (Option String) → Option (List String)
clean_all clean [] = some []
clean_all clean (none ∷ ts) = none
clean_all clean (some t ∷ ts) = elim (clean_all clean ts) [
  | none ↦ none
  | some cs ↦ some (clean t ∷ cs)
]

abbrev pub all_match : (String → Bool) → List String → Bool
all_match test [] = true
all_match test (t ∷ ts) = test t && all_match test ts

abbrev pub has_duplicate : List String → Bool
has_duplicate [] = false
has_duplicate (t ∷ ts) = has_name t ts || has_duplicate ts

abbrev pub check_tickers : (String → Bool) → List String → Result ControlError (List String)
check_tickers is_ticker ts =
    if not (all_match is_ticker ts)
    then err bad_ticker
    else if has_duplicate ts
    then err duplicate_ticker
    else ok ts

-- the `universe` of `split_controls`
unfoldable pub read_universe :
    (String → String) → (String → Bool) → UniverseArg → Result ControlError (List String)
read_universe clean is_ticker not_list = err bad_universe
read_universe clean is_ticker (tickers raw) =
    if not (leb 1 (length raw) && leb (length raw) 50)
    then err bad_universe
    else elim (clean_all clean raw) [
      | none ↦ err bad_universe
      | some ts ↦ check_tickers is_ticker ts
    ]
