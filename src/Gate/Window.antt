-- ===== src/Gate/Window.antt =====
-- What the running sums of engine/core/sentiment_gate.py compute: the mean over the articles of the
-- window.
use mqs_backtest_visualizer.Prelude.{
  ℕ, ◌+◌, ◌-◌, ◌≡◌, refl, ◌⊎◌, Bool, true, false, ◌&&◌, List, [], ◌∷◌, ◌++◌, map, arith,
  if◌then◌else◌, All, Bool-cases, inl, inr, ◌==◌, ◌∙◌, sym,
}
use mqs_backtest_visualizer.Prelude.Int.{ℤ, pos, ◌+ℤ◌, ◌-ℤ◌, ltb_ℤ, leb_ℤ, int_laws, parts_eq}
use mqs_backtest_visualizer.Prelude.Sort.{sort, IsSorted, IsTotal, sort-IsSorted}
use mqs_backtest_visualizer.Prelude.Sums.{
  sum_by, sum_by_ℤ, sum_by-sort, sum_by-append, sum_by_ℤ-append, sum_by_ℤ-sort,
}
use mqs_backtest_visualizer.Gate.Score.{
  Article, available_at, sentiment_window, earlier, embargoed, running_sums, history, bisect_left,
  sum_at, Mean, neutral, score_in,
}

abbrev before_time : ℤ → Article → Bool
before_time x a = ltb_ℤ a.time x

-- The score of an article that counts, and one for it.
abbrev pub score_if : (Article → Bool) → Article → ℤ
score_if test a = if test a then a.score else pos 0

abbrev pub one_if : (Article → Bool) → Article → ℕ
one_if test a = if test a then 1 else 0

earlier-IsTotal : IsTotal earlier
earlier-IsTotal a b h = ground arith

abbrev times_of : List Article → List ℤ
times_of as' = map (λ (a : Article). a.time) as'

-- In a list in order none is before `x` if the first is not.
none_before :
    (x : ℤ) (a : Article) (as' : List Article)
    → IsSorted earlier (a ∷ as')
    → before_time x a ≡ false
    → (sum_by_ℤ (score_if (before_time x)) as' ≡ pos 0) × (sum_by (one_if (before_time x)) as' ≡ 0)
none_before x a [] h e = (refl, refl)
none_before x a (b ∷ bs) h e =
    let f : before_time x b ≡ false = ground arith in
    let (s, n) = none_before x b bs h.1 f in (rw (f, s) (omega int_laws), rw (f, n))

tail-IsSorted :
    (a : Article) (as' : List Article) → IsSorted earlier (a ∷ as') → IsSorted earlier as'
tail-IsSorted a [] h = tt
tail-IsSorted a (b ∷ bs) h = h.1

sum_at-bisect :
    (x last : ℤ) (as' : List Article)
    → IsSorted earlier as'
    → sum_at (running_sums last as') (bisect_left (times_of as') x)
      ≡ last +ℤ sum_by_ℤ (score_if (before_time x)) as'
sum_at-bisect x last [] h = omega int_laws
sum_at-bisect x last (a ∷ as') h = elim (Bool-cases (before_time x a)) [
  | inl e ↦
      rw e
        (omega (int_laws, parts_eq (sum_at-bisect x (last +ℤ a.score) as' (tail-IsSorted a as' h))))
  | inr e ↦ rw e (omega (int_laws, parts_eq (none_before x a as' h e).0))
]

count-bisect :
    (x : ℤ) (as' : List Article)
    → IsSorted earlier as'
    → bisect_left (times_of as') x ≡ sum_by (one_if (before_time x)) as'
count-bisect x [] h = refl
count-bisect x (a ∷ as') h = elim (Bool-cases (before_time x a)) [
  | inl e ↦ rw e (omega (arith, count-bisect x as' (tail-IsSorted a as' h)))
  | inr e ↦ rw e (omega (arith, (none_before x a as' h e).1))
]

-- An article counts at `now` if it was available before then, and no more than seven days.
abbrev pub in_window : ℤ → Article → Bool
in_window now a =
    ltb_ℤ (available_at a.time) now && leb_ℤ (now -ℤ sentiment_window) (available_at a.time)

abbrev available_before : ℤ → Article → Bool
available_before x a = ltb_ℤ (available_at a.time) x

sum-embargoed :
    (x : ℤ) (rows : List Article)
    → sum_by_ℤ (score_if (before_time x)) (map embargoed rows)
      ≡ sum_by_ℤ (score_if (available_before x)) rows
sum-embargoed x [] = refl
sum-embargoed x (a ∷ rows) = rw (sum-embargoed x rows)

count-embargoed :
    (x : ℤ) (rows : List Article)
    → sum_by (one_if (before_time x)) (map embargoed rows)
      ≡ sum_by (one_if (available_before x)) rows
count-embargoed x [] = refl
count-embargoed x (a ∷ rows) = rw (count-embargoed x rows)

history-sum :
    (x : ℤ) (rows : List Article)
    → let h = history rows in
      sum_at h.prefix (bisect_left h.times x) ≡ sum_by_ℤ (score_if (available_before x)) rows
unfolding history
history-sum x rows =
    let found = map embargoed rows in
    sum_at-bisect x (pos 0) (sort earlier found) (sort-IsSorted earlier earlier-IsTotal found)
    ∙ rw (sum_by_ℤ-sort (score_if (before_time x)) earlier found, sum-embargoed x rows)
        (omega int_laws)

history-count :
    (x : ℤ) (rows : List Article)
    → bisect_left (history rows).times x ≡ sum_by (one_if (available_before x)) rows
unfolding history
history-count x rows =
    let found = map embargoed rows in
    count-bisect x (sort earlier found) (sort-IsSorted earlier earlier-IsTotal found)
    ∙ sum_by-sort (one_if (before_time x)) earlier found
    ∙ count-embargoed x rows

-- Of the articles available now, each was available seven days ago or counts.
split_tests :
    (now : ℤ) (a : Article)
    → ((available_before now a ≡ true)
        × (available_before (now -ℤ sentiment_window) a ≡ true)
        × (in_window now a ≡ false))
      ⊎ ((available_before now a ≡ true)
          × (available_before (now -ℤ sentiment_window) a ≡ false)
          × (in_window now a ≡ true))
      ⊎ ((available_before now a ≡ false)
          × (available_before (now -ℤ sentiment_window) a ≡ false)
          × (in_window now a ≡ false))
unfolding ◌-ℤ◌
split_tests now a = ground arith

-- The window is what is available now less what was available seven days ago.
window-sum :
    (now : ℤ) (rows : List Article)
    → sum_by_ℤ (score_if (available_before now)) rows
      ≡ sum_by_ℤ (score_if (available_before (now -ℤ sentiment_window))) rows
        +ℤ sum_by_ℤ (score_if (in_window now)) rows
window-sum now [] = omega int_laws
window-sum now (a ∷ rows) = elim (split_tests now a) [
  | inl (x, y, z) ↦ rw (z, x, y) (omega (int_laws, parts_eq (window-sum now rows)))
  | inr (inl (x, y, z)) ↦ rw (z, x, y) (omega (int_laws, parts_eq (window-sum now rows)))
  | inr (inr (x, y, z)) ↦ rw (z, x, y) (omega (int_laws, parts_eq (window-sum now rows)))
]

window-count :
    (now : ℤ) (rows : List Article)
    → sum_by (one_if (available_before now)) rows
      ≡ sum_by (one_if (available_before (now -ℤ sentiment_window))) rows
        + sum_by (one_if (in_window now)) rows
window-count now [] = refl
window-count now (a ∷ rows) = elim (split_tests now a) [
  | inl (x, y, z) ↦ rw (z, x, y) (omega (arith, window-count now rows))
  | inr (inl (x, y, z)) ↦ rw (z, x, y) (omega (arith, window-count now rows))
  | inr (inr (x, y, z)) ↦ rw (z, x, y) (omega (arith, window-count now rows))
]

-- The mean of the articles that count, computed over all of them.
abbrev pub mean_of : ℤ → List Article → Mean
mean_of now rows =
    let count = sum_by (one_if (in_window now)) rows in
    if count == 0
    then neutral
    else record { sum = sum_by_ℤ (score_if (in_window now)) rows; count = count }

-- The running sums give the mean of the articles in the window, in whatever order the rows came.
pub score_in_lem : (now : ℤ) (rows : List Article) → score_in (history rows) now ≡ mean_of now rows
unfolding score_in
score_in_lem now rows =
    let h = history rows in
    let old = now -ℤ sentiment_window in
    let count : bisect_left h.times now - bisect_left h.times old
        ≡ sum_by (one_if (in_window now)) rows =
      omega (arith, history-count now rows, history-count old rows, window-count now rows) in
    let sum : sum_at h.prefix (bisect_left h.times now) -ℤ sum_at h.prefix (bisect_left h.times old)
        ≡ sum_by_ℤ (score_if (in_window now)) rows =
      omega (
        int_laws,
        parts_eq (history-sum now rows),
        parts_eq (history-sum old rows),
        parts_eq (window-sum now rows),
      ) in
    rw (count, sum)

none_counts :
    (now : ℤ) (others : List Article)
    → All (λ a. in_window now a ≡ false) others
    → (sum_by_ℤ (score_if (in_window now)) others ≡ pos 0)
      × (sum_by (one_if (in_window now)) others ≡ 0)
none_counts now [] h = (refl, refl)
none_counts now (a ∷ others) h =
    let (s, n) = none_counts now others h.1 in (rw (h.0, s) (omega int_laws), rw (h.0, n))

-- Articles that are not yet available, or are older than the window, leave the score as it is.
pub score_in-others :
    (now : ℤ) (rows others : List Article)
    → All (λ a. in_window now a ≡ false) others
    → score_in (history (rows ++ others)) now ≡ score_in (history rows) now
score_in-others now rows others h =
    let (s, n) = none_counts now others h in
    let sum : sum_by_ℤ (score_if (in_window now)) (rows ++ others)
        ≡ sum_by_ℤ (score_if (in_window now)) rows =
      omega
        (int_laws, parts_eq (sum_by_ℤ-append (score_if (in_window now)) rows others), parts_eq s) in
    let count : sum_by (one_if (in_window now)) (rows ++ others)
        ≡ sum_by (one_if (in_window now)) rows =
      omega (arith, sum_by-append (one_if (in_window now)) rows others, n) in
    score_in_lem now (rows ++ others) ∙ rw (sum, count) (sym (score_in_lem now rows))

-- Without articles in the window the mean is neutral.
pub mean_of-empty :
    (now : ℤ) (rows : List Article)
    → All (λ a. in_window now a ≡ false) rows
    → mean_of now rows ≡ neutral
mean_of-empty now rows h = rw ((none_counts now rows h).1)
