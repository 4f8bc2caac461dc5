-- ===== src/Gate/Score.antt =====
-- engine/core/sentiment_gate.py: the articles of each ticker in order with their running sums, the
-- mean score of a window, and the test for a new long exposure. Times are seconds of naive UTC; scores
-- and the threshold are exact numbers on one grid, `unit` of which make 1.0. `upper` is `str.upper`.
use Prim.Native.String.{String}
use text.Mathlib.Text.{◌==◌ as str_eq}
use mqs_backtest_visualizer.Prelude.{
  ℕ, zero, suc, ◌+◌, ◌-◌, Bool, ◌&&◌, ◌||◌, Option, none, some, List, [], ◌∷◌, map, ◌==◌,
  if◌then◌else◌,
}
use mqs_backtest_visualizer.Prelude.Int.{ℤ, pos, ◌+ℤ◌, ◌-ℤ◌, ◌*ℤ◌, ltb_ℤ, leb_ℤ}
use mqs_backtest_visualizer.Prelude.Sort.{sort}
use mqs_backtest_visualizer.Pairing.Fill.{Moment}

-- when an article was published, or is available, and its score
pub record Article : Type 0 where
  pub time : ℤ
  pub score : ℤ

abbrev pub sentiment_window : ℤ
sentiment_window = pos 604800

abbrev pub vendor_timezone_embargo : ℤ
vendor_timezone_embargo = pos 18000

unfoldable pub available_at : ℤ → ℤ
available_at published = published +ℤ vendor_timezone_embargo

unfoldable pub to_naive_utc : Moment → ℤ
to_naive_utc moment = elim moment.offset [ none ↦ moment.wall | some off ↦ moment.wall -ℤ off ]

-- `_times` and `_prefix` of one ticker
pub record History : Type 0 where
  pub times : List ℤ
  pub prefix : List ℤ

abbrev pub Table : Type 0
Table = List (String × History)

pub record SentimentGate : Type 0 where
  pub threshold : ℤ
  pub blocked_entry_count : ℕ
  pub table : Table

-- the order of the tuples `(moment, score)`
abbrev pub earlier : Article → Article → Bool
earlier a b = ltb_ℤ a.time b.time || (leb_ℤ a.time b.time && leb_ℤ a.score b.score)

abbrev pub embargoed : Article → Article
embargoed a = record a { time = available_at a.time }

-- `running`
abbrev pub running_sums : ℤ → List Article → List ℤ
running_sums last [] = last ∷ []
running_sums last (a ∷ as') = last ∷ running_sums (last +ℤ a.score) as'

unfoldable pub history : List Article → History
history rows =
    let ordered = sort earlier (map embargoed rows) in
    record { times = map (λ (a : Article). a.time) ordered; prefix = running_sums (pos 0) ordered }

abbrev pub put_history : String → History → Table → Table
put_history t h [] = (t, h) ∷ []
put_history t h ((k, old) ∷ table) =
    if str_eq k t then (k, h) ∷ table else (k, old) ∷ put_history t h table

abbrev pub find_history : String → Table → Option History
find_history t [] = none
find_history t ((k, h) ∷ table) = if str_eq k t then some h else find_history t table

-- the first place whose time is not below `x`, in a list in order
abbrev pub bisect_left : List ℤ → ℤ → ℕ
bisect_left [] x = 0
bisect_left (t ∷ times) x = if ltb_ℤ t x then suc (bisect_left times x) else 0

-- `prefix[i]`, where `i` is a place of the list
abbrev pub sum_at : List ℤ → ℕ → ℤ
sum_at [] i = pos 0
sum_at (s ∷ sums) zero = s
sum_at (s ∷ sums) (suc i) = sum_at sums i

-- a mean as its sum and its count; the neutral score has count 0
pub record Mean : Type 0 where
  pub sum : ℤ
  pub count : ℕ

abbrev pub neutral : Mean
neutral = record { sum = pos 0; count = 0 }

-- `score_at` from the ticker's history on
unfoldable pub score_in : History → ℤ → Mean
score_in h now =
    let end = bisect_left h.times now in
    let start = bisect_left h.times (now -ℤ sentiment_window) in
    let count = end - start in
    if count == 0
    then neutral
    else record { sum = sum_at h.prefix end -ℤ sum_at h.prefix start; count = count }

-- `score < self.threshold`, where the neutral score is 0.0
abbrev pub below_threshold : Mean → ℤ → Bool
below_threshold mean threshold =
    if mean.count == 0
    then ltb_ℤ (pos 0) threshold
    else ltb_ℤ mean.sum (threshold *ℤ pos mean.count)

module _ (upper : String → String) where
  -- the loop of `__post_init__`
  unfoldable pub build_table : Table → List (String × List Article) → Table
  build_table table [] = table
  build_table table ((ticker, rows) ∷ articles) =
      build_table (put_history (upper ticker) (history rows) table) articles

  -- `SentimentGate(threshold, articles)`; none is the `ValueError`
  unfoldable pub new_gate : ℤ → ℤ → List (String × List Article) → Option SentimentGate
  unfolding build_table
  new_gate unit threshold articles =
      if leb_ℤ (pos 0 -ℤ unit) threshold && leb_ℤ threshold (pos 0)
      then some (record {
        threshold = threshold;
        blocked_entry_count = 0;
        table = build_table [] articles;
      })
      else none

  unfoldable pub score_at : SentimentGate → String → Moment → Mean
  score_at gate ticker moment = elim (find_history (upper ticker) gate.table) [
    | none ↦ neutral
    | some h ↦ score_in h (to_naive_utc moment)
  ]

  unfoldable pub blocks_long_entry : SentimentGate → String → Moment → Bool
  blocks_long_entry gate ticker moment =
      below_threshold (score_at gate ticker moment) gate.threshold

unfoldable pub record_block : SentimentGate → SentimentGate
record_block gate = record gate { blocked_entry_count = gate.blocked_entry_count + 1 }
