-- ===== src/Runs/Days.antt =====
-- What `_equity_rows` keeps of a curve (src/workers/run_job.py).
use mqs_backtest_visualizer.Prelude.{
  ℕ, suc, ◌<◌, ◌==◌, ◌≡◌, refl, sym, subst, ◌∙◌, inl, inr, Bool, true, false, Bool-cases, Option,
  none, some, Option-cases, List, [], ◌∷◌, Result, ok, err, Result-cases, arith, if◌then◌else◌,
}
use mqs_backtest_visualizer.Prelude.Int.{ℤ}
use mqs_backtest_visualizer.Prelude.Dict.{
  Dict, lookup, insert, Unique, lookup-insert, insert-Unique,
}
use mqs_backtest_visualizer.Prelude.Sort
use mqs_backtest_visualizer.Prelude.Sort.{sort, IsSorted, sort-IsSorted}
use mqs_backtest_visualizer.Runs.Daily.{
  EquityPoint, EquityRow, Unstorable, equity_number, money, required, money_required, by_day,
  day_before, row_at, rows_from, equity_rows,
}

-- The last sample of a day, read from the end of the curve.
abbrev pub last_sample : ℕ → List EquityPoint → Option EquityPoint
last_sample d [] = none
last_sample d (p ∷ ps) = elim (last_sample d ps) [
  | some q ↦ some q
  | none ↦ if d == p.day then some p else none
]

abbrev pub stored_equity : Option EquityPoint → Option ℤ
stored_equity none = none
stored_equity (some p) = money p.equity

-- The equity in the row of a day.
abbrev pub equity_on : ℕ → List EquityRow → Option ℤ
equity_on d [] = none
equity_on d (r ∷ rs) = if d == r.date then some r.equity else equity_on d rs

-- The rows are numbered from a place on, and each day is later than the one before.
abbrev pub InOrder : ℕ → List EquityRow → Type 0
InOrder n [] = Unit
InOrder n (r ∷ []) = r.seq ≡ n
InOrder n (r ∷ s ∷ rs) = (r.seq ≡ n) × (r.date < s.date) × InOrder (suc n) (s ∷ rs)

abbrev or_else : Option EquityPoint → Option EquityPoint → Option EquityPoint
or_else none q = q
or_else (some p) q = some p

or_else_if :
    (b : Bool) (p : EquityPoint) (q : Option EquityPoint)
    → (if b then some p else q) ≡ or_else (if b then some p else none) q
or_else_if true p q = refl
or_else_if false p q = refl

lookup-by_day :
    (k : ℕ) (d : Dict EquityPoint) (ps : List EquityPoint)
    → lookup k (by_day d ps) ≡ or_else (last_sample k ps) (lookup k d)
lookup-by_day k d [] = refl
lookup-by_day k d (p ∷ ps) =
    let rest = lookup-by_day k (insert p.day p d) ps in
    let put = lookup-insert p.day k p d in
    elim (Option-cases (last_sample k ps)) [
      | inl e ↦ rw (rest, e, put) (or_else_if (k == p.day) p (lookup k d))
      | inr (q, e) ↦ rw (rest, e) refl
    ]

by_day-Unique : (d : Dict EquityPoint) (ps : List EquityPoint) → Unique d → Unique (by_day d ps)
by_day-Unique d [] h = h
by_day-Unique d (p ∷ ps) h = by_day-Unique (insert p.day p d) ps (insert-Unique p.day p d h)

lookup-place :
    (k j : ℕ) (v : EquityPoint) (d : Dict EquityPoint)
    → lookup j d ≡ none
    → lookup k (Sort.insert day_before (j, v) d) ≡ (if k == j then some v else lookup k d)
unfolding Sort.insert
lookup-place k j v [] h = refl
lookup-place k j v ((i, w) ∷ d) h = ground (arith, lookup-place k j v d)

place-Unique :
    (j : ℕ) (v : EquityPoint) (d : Dict EquityPoint)
    → lookup j d ≡ none
    → Unique d
    → Unique (Sort.insert day_before (j, v) d)
unfolding Sort.insert
place-Unique j v [] h u = (refl, tt)
place-Unique j v ((i, w) ∷ d) h u = ground (arith, place-Unique j v d, lookup-place i j v d)

sorted-Unique :
    (d : Dict EquityPoint)
    → Unique d
    → Unique (sort day_before d) × ((k : ℕ) → lookup k (sort day_before d) ≡ lookup k d)
unfolding sort
sorted-Unique [] u = (tt, λ k. refl)
sorted-Unique ((j, v) ∷ d) u =
    let (unique, same) = sorted-Unique d u.1 in
    let free = same j ∙ u.0 in
    (
      place-Unique j v (sort day_before d) free unique,
      λ k. rw (lookup-place k j v (sort day_before d) free, same k) refl,
    )

abbrev given : List EquityRow → Result Unstorable (List EquityRow)
given rows = ok rows

abbrev refused : Unstorable → Result Unstorable (List EquityRow)
refused e = err e

same_rows : (xs ys : List EquityRow) → given xs ≡ given ys → xs ≡ ys
same_rows xs ys h = cc

not_given : (e : Unstorable) (rows : List EquityRow) → refused e ≡ given rows → ⊥
not_given e rows h = cc

-- Each day of the entries comes before the next.
abbrev Later : Dict EquityPoint → Type 0
Later [] = Unit
Later (a ∷ []) = Unit
Later (a ∷ b ∷ es) = (a.0 < b.0) × Later (b ∷ es)

sorted-Later : (es : Dict EquityPoint) → IsSorted day_before es → Unique es → Later es
sorted-Later [] s u = tt
sorted-Later (a ∷ []) s u = tt
sorted-Later ((i, v) ∷ (j, w) ∷ es) s u = (ground arith, sorted-Later ((j, w) ∷ es) s.1 u.1)

day_before-total : (a b : ℕ × EquityPoint) → day_before a b ≡ false → day_before b a ≡ true
day_before-total a b h = ground arith

rows_from-next :
    (n i : ℕ) (p : EquityPoint) (es : Dict EquityPoint) (equity : ℤ) (rows : List EquityRow)
    → money_required p.equity equity_number ≡ ok equity
    → rows_from (suc n) es ≡ ok rows
    → rows_from n ((i, p) ∷ es) ≡ ok (row_at n i p equity ∷ rows)
rows_from-next n i p es equity rows e f = rw (rows_from, e, f) refl

rows_from-number :
    (n i : ℕ) (p : EquityPoint) (es : Dict EquityPoint) (trouble : Unstorable)
    → money_required p.equity equity_number ≡ err trouble
    → rows_from n ((i, p) ∷ es) ≡ err trouble
rows_from-number n i p es trouble e = rw (rows_from, e) refl

rows_from-rest :
    (n i : ℕ) (p : EquityPoint) (es : Dict EquityPoint) (equity : ℤ) (trouble : Unstorable)
    → money_required p.equity equity_number ≡ ok equity
    → rows_from (suc n) es ≡ err trouble
    → rows_from n ((i, p) ∷ es) ≡ err trouble
rows_from-rest n i p es equity trouble e f = rw (rows_from, e, f) refl

required-some : (o : Option ℤ) (v : ℤ) → required o equity_number ≡ ok v → o ≡ some v
required-some none v h = cc
required-some (some u) v h = cc

abbrev first_day : List EquityRow → Option ℕ
first_day [] = none
first_day (r ∷ rs) = some r.date

abbrev first_key : Dict EquityPoint → Option ℕ
first_key [] = none
first_key ((i, p) ∷ es) = some i

abbrev Kept : ℕ → Dict EquityPoint → List EquityRow → Type 0
Kept n es rows =
    InOrder n rows
    × (first_day rows ≡ first_key es)
    × ((d : ℕ) → equity_on d rows ≡ stored_equity (lookup d es))

InOrder-cons :
    (n i : ℕ) (p : EquityPoint) (es : Dict EquityPoint) (equity : ℤ) (rows : List EquityRow)
    → Later ((i, p) ∷ es)
    → first_day rows ≡ first_key es
    → InOrder (suc n) rows
    → InOrder n (row_at n i p equity ∷ rows)
InOrder-cons n i p es equity [] l f o = refl
InOrder-cons n i p [] equity (r ∷ rows) l f o = cc
InOrder-cons n i p ((j, w) ∷ es) equity (r ∷ rows) l f o =
    (refl, subst (λ d. i < d) (sym (same_day r.date j f)) l.0, o)
  where
    same_day : (a b : ℕ) → some a ≡ some b → a ≡ b
    same_day a b e = cc

Later-rest : (e : ℕ × EquityPoint) (es : Dict EquityPoint) → Later (e ∷ es) → Later es
Later-rest e [] l = tt
Later-rest e (f ∷ es) l = l.1

Kept-next :
    (n i : ℕ) (p : EquityPoint) (es : Dict EquityPoint) (equity : ℤ) (rows : List EquityRow)
    → money p.equity ≡ some equity
    → InOrder n (row_at n i p equity ∷ rows)
    → ((d : ℕ) → equity_on d rows ≡ stored_equity (lookup d es))
    → Kept n ((i, p) ∷ es) (row_at n i p equity ∷ rows)
Kept-next n i p es equity rows e order same = (
  order,
  refl,
  λ d. elim (Bool-cases (d == i)) [
    | inl f ↦ rw (f, stored_equity, sym e) refl
    | inr f ↦ rw f (same d)
  ],
)

rows_from-Kept :
    (n : ℕ) (es : Dict EquityPoint) (rows : List EquityRow)
    → Later es
    → rows_from n es ≡ ok rows
    → Kept n es rows
rows_from-Kept n [] rows l h = subst (Kept n []) (same_rows [] rows h) (tt, refl, λ d. refl)
rows_from-Kept n ((i, p) ∷ es) rows l h =
    elim (Result-cases (money_required p.equity equity_number)) [
      | inr (e, bad) ↦ absurd (not_given e rows (sym (rows_from-number n i p es e bad) ∙ h))
      | inl (equity, good) ↦ elim (Result-cases (rows_from (suc n) es)) [
        | inr (e, bad) ↦
            absurd (not_given e rows (sym (rows_from-rest n i p es equity e good bad) ∙ h))
        | inl (rest, planned) ↦
            let (order, first, same) =
              rows_from-Kept (suc n) es rest (Later-rest (i, p) es l) planned in
            subst (Kept n ((i, p) ∷ es))
              (same_rows (row_at n i p equity ∷ rest) rows
                (sym (rows_from-next n i p es equity rest good planned) ∙ h))
              (Kept-next n i p es equity rest (required-some (money p.equity) equity good)
                (InOrder-cons n i p es equity rest l first order) same)
      ]
    ]

-- The rows that `_equity_rows` makes of a curve are numbered from 0 and stand in the order of their
-- days, no day twice, and a day's row has the equity of the day's last sample, if it has one.
pub equity_rows_lem :
    (curve : List EquityPoint) (rows : List EquityRow)
    → equity_rows curve ≡ ok rows
    → InOrder 0 rows × ((d : ℕ) → equity_on d rows ≡ stored_equity (last_sample d curve))
unfolding equity_rows
equity_rows_lem curve rows h =
    let entries = by_day [] curve in
    let (unique, same) = sorted-Unique entries (by_day-Unique [] curve tt) in
    let later =
      sorted-Later (sort day_before entries) (sort-IsSorted day_before day_before-total entries)
        unique in
    let (order, first, kept) = rows_from-Kept 0 (sort day_before entries) rows later h in
    (order, λ d. rw (kept d, same d, lookup-by_day d [] curve) (only_sample (last_sample d curve)))
  where
    only_sample : (o : Option EquityPoint) → stored_equity (or_else o none) ≡ stored_equity o
    only_sample none = refl
    only_sample (some p) = refl
