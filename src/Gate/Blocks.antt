-- ===== src/Gate/Blocks.antt =====
-- What a gate of engine/core/sentiment_gate.py decides for a ticker.
use Prim.Native.String.{String}
use text.Mathlib.Text.{◌==◌ as str_eq}
use text.Mathlib.TextEquality.{eq_iff}
use mqs_backtest_visualizer.Prelude.{
  ◌≡◌, refl, true, false, Option, none, some, List, [], ◌∷◌, arith, if◌then◌else◌, All, Bool-cases,
  Option-cases, sym, inl, inr, ◌∙◌,
}
use mqs_backtest_visualizer.Prelude.Int.{ℤ, pos, leb_ℤ}
use mqs_backtest_visualizer.Pairing.Fill.{Moment}
use mqs_backtest_visualizer.Gate.Score.{
  Article, SentimentGate, Table, History, history, put_history, find_history, build_table, new_gate,
  score_at, blocks_long_entry, to_naive_utc, Mean, neutral,
}
use mqs_backtest_visualizer.Gate.Window.{in_window, mean_of, mean_of-empty, score_in_lem}

find-put :
    (k t : String) (h : History) (table : Table)
    → find_history k (put_history t h table) ≡ (if str_eq t k then some h else find_history k table)
find-put k t h [] = refl
find-put k t h ((j, old) ∷ table) = elim (Bool-cases (str_eq j t)) [
  | inl e ↦
      rw (e, (eq_iff j t).0 e) (elim (Bool-cases (str_eq t k)) [ inl f ↦ rw f | inr f ↦ rw f ])
  | inr e ↦ elim (Bool-cases (str_eq t k)) [
    | inl f ↦
        let g : str_eq j k ≡ false = rw (sym ((eq_iff t k).0 f)) e in
        rw (e, g, find-put k t h table, f)
    | inr f ↦ rw (e, find-put k t h table, f)
  ]
]

module _ (upper : String → String) where
  -- The articles under a ticker's name in capitals: those of the last such key.
  abbrev pub articles_of : String → List (String × List Article) → Option (List Article)
  articles_of k [] = none
  articles_of k ((ticker, rows) ∷ articles) = elim (articles_of k articles) [
    | some later ↦ some later
    | none ↦ if str_eq (upper ticker) k then some rows else none
  ]

  abbrev pub mean_at : ℤ → Option (List Article) → Mean
  mean_at now none = neutral
  mean_at now (some rows) = mean_of now rows

  find-build :
      (k : String) (table : Table) (articles : List (String × List Article))
      → find_history k (build_table upper table articles) ≡ (elim (articles_of k articles) [
        | none ↦ find_history k table
        | some rows ↦ some (history rows)
      ])
  unfolding build_table
  find-build k table [] = refl
  find-build k table ((ticker, rows) ∷ articles) =
      let tail = find-build k (put_history (upper ticker) (history rows) table) articles in
      elim (Option-cases (articles_of k articles)) [
        | inl e ↦
            rw (tail, e, find-put k (upper ticker) (history rows) table)
              (elim (Bool-cases (str_eq (upper ticker) k)) [ inl f ↦ rw f | inr f ↦ rw f ])
        | inr (later, e) ↦ rw (tail, e)
      ]

  -- The score of a ticker at a moment is the mean over its articles in the window, if it has any, where
  -- an article's time is taken with the embargo.
  pub score_at_lem :
      (unit threshold : ℤ) (articles : List (String × List Article)) (gate : SentimentGate)
      (ticker : String) (moment : Moment)
      → new_gate upper unit threshold articles ≡ some gate
      → score_at upper gate ticker moment
        ≡ mean_at (to_naive_utc moment) (articles_of (upper ticker) articles)
  unfolding new_gate score_at
  score_at_lem unit threshold articles gate ticker moment h =
      let now = to_naive_utc moment in
      let t : gate.table ≡ build_table upper [] articles = ground arith in
      elim (Option-cases (articles_of (upper ticker) articles)) [
        | inl e ↦ rw (score_at, t, find-build (upper ticker) [] articles, e)
        | inr (rows, e) ↦
            rw (score_at, t, find-build (upper ticker) [] articles, e) (score_in_lem now rows)
      ]

  -- The articles of a ticker in no window at all.
  abbrev pub Silent : ℤ → Option (List Article) → Type 0
  Silent now none = Unit
  Silent now (some rows) = All (λ a. in_window now a ≡ false) rows

  mean_at-Silent :
      (now : ℤ) (rows : Option (List Article)) → Silent now rows → mean_at now rows ≡ neutral
  mean_at-Silent now none h = refl
  mean_at-Silent now (some rows) h = mean_of-empty now rows h

  -- A ticker without news in the window is never blocked.
  pub quiet_unblocked :
      (unit threshold : ℤ) (articles : List (String × List Article)) (gate : SentimentGate)
      (ticker : String) (moment : Moment)
      → new_gate upper unit threshold articles ≡ some gate
      → Silent (to_naive_utc moment) (articles_of (upper ticker) articles)
      → blocks_long_entry upper gate ticker moment ≡ false
  unfolding new_gate blocks_long_entry
  quiet_unblocked unit threshold articles gate ticker moment h quiet =
      let now = to_naive_utc moment in
      let low : leb_ℤ gate.threshold (pos 0) ≡ true = ground arith in
      let none_said : score_at upper gate ticker moment ≡ neutral =
        score_at_lem unit threshold articles gate ticker moment h
        ∙ mean_at-Silent now (articles_of (upper ticker) articles) quiet in
      rw none_said (ground arith)
