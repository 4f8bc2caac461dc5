-- ===== src/Runs/Listing.antt =====
-- What the pages of `list_runs` hold (src/repositories/runs.py).
use mathlib.Core.List.{Memᴰ}
use mqs_backtest_visualizer.Prelude.{
  ℕ, zero, suc, ◌*◌, ◌≤◌, ◌-◌, max, ◌≡◌, ◌⊎◌, refl, sym, ap, subst, ◌∙◌, Bool, true, false, [], ◌∷◌,
  arith, Bool-cases, inl, inr, length,
}
use mqs_backtest_visualizer.Prelude.Sort.{
  IsSorted, IsTotal, sort, sort-IsSorted, length-sort, Memᴰ-sort, sort-Memᴰ,
}
use mqs_backtest_visualizer.Prelude.Text.{take}
use mqs_backtest_visualizer.Runs.Table.{
  Run, RunTable, RunFilters, passes, select_where, listed_before, drop, list_runs,
}
use mqs_backtest_visualizer.Runs.Wanted.{Wanted, passes-Wanted, Wanted-passes}

-- Later rows were created earlier, or at the same time with a larger id.
abbrev pub NewestFirst : RunTable → Type 0
NewestFirst [] = Unit
NewestFirst (a ∷ []) = Unit
NewestFirst (a ∷ b ∷ rows) =
    ((suc b.created_at ≤ a.created_at) ⊎ ((a.created_at ≡ b.created_at) × (a.id ≤ b.id)))
    × NewestFirst (b ∷ rows)

listed_before-IsTotal : IsTotal listed_before
listed_before-IsTotal a b h = ground arith

IsSorted-NewestFirst : (rows : RunTable) → IsSorted listed_before rows → NewestFirst rows
IsSorted-NewestFirst [] h = tt
IsSorted-NewestFirst (a ∷ []) h = tt
IsSorted-NewestFirst (a ∷ b ∷ rows) h = (ground arith, IsSorted-NewestFirst (b ∷ rows) h.1)

module _ (test : Run → Bool) where
  select_taken :
      (run : Run) (runs : RunTable)
      → test run ≡ true
      → select_where test (run ∷ runs) ≡ run ∷ select_where test runs
  select_taken run runs t = rw t refl

  select_left :
      (run : Run) (runs : RunTable)
      → test run ≡ false
      → select_where test (run ∷ runs) ≡ select_where test runs
  select_left run runs f = rw f refl

  -- A statement selects the rows that pass its test, and no other.
  head_or_rest :
      (r run : Run) (runs rest : RunTable)
      → test run ≡ true
      → (Memᴰ r rest → Memᴰ r runs × (test r ≡ true))
      → Memᴰ r (run ∷ rest)
      → Memᴰ r (run ∷ runs) × (test r ≡ true)
  head_or_rest r run runs rest t h (Memᴰ.head e) =
      (Memᴰ.head e, subst (λ x. test x ≡ true) (sym e) t)
  head_or_rest r run runs rest t h (Memᴰ.tail m) = (Memᴰ.tail (h m).0, (h m).1)

  selected :
      (r : Run) (runs : RunTable) → Memᴰ r (select_where test runs) → Memᴰ r runs × (test r ≡ true)
  selected r [] m = elim m [ ]
  selected r (run ∷ runs) m = elim (Bool-cases (test run)) [
    | inl t ↦
        head_or_rest r run runs (select_where test runs) t (selected r runs)
          (subst (λ l. Memᴰ r l) (select_taken run runs t) m)
    | inr f ↦
        let (k, e) = selected r runs (subst (λ l. Memᴰ r l) (select_left run runs f) m) in
        (Memᴰ.tail k, e)
  ]

  select-Memᴰ :
      (r : Run) (runs : RunTable) → Memᴰ r runs → test r ≡ true → Memᴰ r (select_where test runs)
  select-Memᴰ r [] m e = elim m [ ]
  select-Memᴰ r (run ∷ runs) (Memᴰ.head same) e =
      let t : test run ≡ true = subst (λ x. test x ≡ true) same e in
      subst (λ l. Memᴰ r l) (sym (select_taken run runs t)) (Memᴰ.head same)
  select-Memᴰ r (run ∷ runs) (Memᴰ.tail m) e = elim (Bool-cases (test run)) [
    | inl t ↦
        subst (λ l. Memᴰ r l) (sym (select_taken run runs t)) (Memᴰ.tail (select-Memᴰ r runs m e))
    | inr f ↦ subst (λ l. Memᴰ r l) (sym (select_left run runs f)) (select-Memᴰ r runs m e)
  ]

  length-select : (runs : RunTable) → length (select_where test runs) ≤ length runs
  length-select [] = omega arith
  length-select (run ∷ runs) = elim (Bool-cases (test run)) [
    | inl t ↦ rw t (omega (arith, length-select runs))
    | inr f ↦ rw f (omega (arith, length-select runs))
  ]

take-all : (n : ℕ) (runs : RunTable) → length runs ≤ n → take n runs ≡ runs
take-all zero [] h = refl
take-all (suc n) [] h = refl
take-all zero (run ∷ runs) h = absurd (omega (arith, h))
take-all (suc n) (run ∷ runs) h = rw (take-all n runs (omega (arith, h))) refl

drop-zero : (runs : RunTable) → drop 0 runs ≡ runs
drop-zero [] = refl
drop-zero (run ∷ runs) = refl

-- The rows in order, before they are cut into pages.
abbrev ordered : RunFilters → RunTable → RunTable
ordered f runs = sort listed_before (select_where (passes f) runs)

-- A single page with room for every row.
abbrev pub all_rows : RunFilters → RunTable → RunTable
all_rows f runs = (list_runs f 1 (length runs) runs).0

page_eq :
    (f : RunFilters) (p size : ℕ) (runs : RunTable)
    → (list_runs f (suc p) size runs).0 ≡ take size (drop (p * size) (ordered f runs))
unfolding list_runs
page_eq f p size runs =
    let offset : max (suc p - 1) 0 ≡ p = ground arith in
    ap (λ o. take size (drop (o * size) (ordered f runs))) offset

all_rows_eq : (f : RunFilters) (runs : RunTable) → all_rows f runs ≡ ordered f runs
all_rows_eq f runs =
    let short : length (ordered f runs) ≤ length runs = omega (
      arith,
      length-sort listed_before (select_where (passes f) runs),
      length-select (passes f) runs,
    ) in
    let start : 0 * length runs ≡ 0 = omega arith in
    page_eq f 0 (length runs) runs
    ∙ ap (λ o. take (length runs) (drop o (ordered f runs))) start
    ∙ ap (take (length runs)) (drop-zero (ordered f runs))
    ∙ take-all (length runs) (ordered f runs) short

-- A page with room for every row holds exactly the rows of the table that every filter that is set
-- asks for, the owner's included, newest first and those of one time by their ids. Any page of any
-- size is that list's part from its place, and the number given with it is how long the list is.
pub list_runs_lem :
    (f : RunFilters) (runs : RunTable)
    → ((r : Run)
        → (Memᴰ r (all_rows f runs) → Memᴰ r runs × Wanted f r)
          × (Memᴰ r runs → Wanted f r → Memᴰ r (all_rows f runs)))
      × NewestFirst (all_rows f runs)
      × ((p size : ℕ)
          → ((list_runs f (suc p) size runs).0 ≡ take size (drop (p * size) (all_rows f runs)))
            × ((list_runs f (suc p) size runs).1 ≡ length (all_rows f runs)))
unfolding list_runs
list_runs_lem f runs =
    let found = select_where (passes f) runs in
    let all = all_rows_eq f runs in
    (
      λ r. (
        λ m.
            let (k, e) =
              selected (passes f) r runs
                (Memᴰ-sort listed_before r found (subst (λ l. Memᴰ r l) all m)) in
            (k, passes-Wanted f r e),
        λ m w.
            subst (λ l. Memᴰ r l) (sym all)
              (sort-Memᴰ listed_before r found
                (select-Memᴰ (passes f) r runs m (Wanted-passes f r w))),
      ),
      subst NewestFirst (sym all) (
          IsSorted-NewestFirst (ordered f runs)
            (sort-IsSorted listed_before listed_before-IsTotal found)),
      λ p size. (
        page_eq f p size runs ∙ ap (λ l. take size (drop (p * size) l)) (sym all),
        sym (length-sort listed_before found) ∙ ap length (sym all),
      ),
    )
