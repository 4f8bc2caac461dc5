-- ===== src/Gate/Tests.antt =====
-- The sentiment gate at concrete articles (engine/core/sentiment_gate.py).
use Prim.Native.String.{String}
use mqs_backtest_visualizer.Prelude.{◌≡◌, refl, true, false, none, some, List, [], ◌∷◌, ◌++◌}
use mqs_backtest_visualizer.Prelude.Int.{ℤ, pos, negsuc, ◌+ℤ◌, ◌-ℤ◌, ◌*ℤ◌}
use mqs_backtest_visualizer.Prelude.Sort.{sort}
use mqs_backtest_visualizer.Pairing.Fill.{Moment}
use mqs_backtest_visualizer.Gate.Score.{
  Article, SentimentGate, history, available_at, score_in, new_gate, build_table, score_at,
  blocks_long_entry, to_naive_utc,
}
use mqs_backtest_visualizer.Gate.Window.{score_in-others}
use mqs_backtest_visualizer.Gate.Blocks.{articles_of, mean_at, score_at_lem, quiet_unblocked}

abbrev article : ℤ → ℤ → Article
article time score = record { time = time; score = score }

-- Out of order; the last is published within the embargo of the moment below.
abbrev news : List Article
news =
    article (pos 900000) (negsuc 79)
    ∷ article (pos 500000) (pos 20)
    ∷ article (pos 995000) (pos 90)
    ∷ []

abbrev at_noon : Moment
at_noon = record { wall = pos 1000000; offset = none }

abbrev same_name : String → String
same_name s = s

abbrev articles : List (String × List Article)
articles = ("AAPL", news) ∷ ("MSFT", []) ∷ []

abbrev gate : SentimentGate
gate = record {
  threshold = negsuc 19;
  blocked_entry_count = 0;
  table = ("AAPL", history news) ∷ ("MSFT", history []) ∷ [];
}

gate-built : new_gate same_name (pos 100) (negsuc 19) articles ≡ some gate
unfolding new_gate build_table ◌-ℤ◌
gate-built = refl

-- The mean of -80 and 20 is below -20.
apple_blocked : blocks_long_entry same_name gate "AAPL" at_noon ≡ true
unfolding blocks_long_entry score_at score_in history sort available_at to_naive_utc ◌-ℤ◌ ◌+ℤ◌ ◌*ℤ◌
apple_blocked = refl

late_news_is_left_out :
    score_in (history (news ++ article (pos 990000) (pos 5) ∷ [])) (pos 1000000)
    ≡ score_in (history news) (pos 1000000)
unfolding available_at ◌-ℤ◌ ◌+ℤ◌
late_news_is_left_out =
    score_in-others (pos 1000000) news (article (pos 990000) (pos 5) ∷ []) (refl, tt)

score_at_lem_example :
    score_at same_name gate "AAPL" at_noon
    ≡ mean_at same_name (to_naive_utc at_noon) (articles_of same_name (same_name "AAPL") articles)
score_at_lem_example =
    score_at_lem same_name (pos 100) (negsuc 19) articles gate "AAPL" at_noon gate-built

quiet_unblocked_example : blocks_long_entry same_name gate "MSFT" at_noon ≡ false
quiet_unblocked_example =
    quiet_unblocked same_name (pos 100) (negsuc 19) articles gate "MSFT" at_noon gate-built tt
