-- ===== src/Prelude/Sums.antt =====
-- Sums over a list, and how appending and sorting act on them.
use mqs_backtest_visualizer.Prelude.{
  ℕ, ◌+◌, ◌≡◌, refl, Bool, List, [], ◌∷◌, ◌++◌, arith, Bool-cases, inl, inr,
}
use mqs_backtest_visualizer.Prelude.Int.{ℤ, pos, ◌+ℤ◌, int_laws}
use mqs_backtest_visualizer.Prelude.Sort.{insert, sort}

module _ {ℓ} {A : Type ℓ} where
  abbrev pub sum_by : (A → ℕ) → List A → ℕ
  sum_by f [] = 0
  sum_by f (a ∷ as') = f a + sum_by f as'

  abbrev pub sum_by_ℤ : (A → ℤ) → List A → ℤ
  sum_by_ℤ f [] = pos 0
  sum_by_ℤ f (a ∷ as') = f a +ℤ sum_by_ℤ f as'

module _ {ℓ} {A : Type ℓ} (f : A → ℕ) where
  pub sum_by-append : (xs ys : List A) → sum_by f (xs ++ ys) ≡ sum_by f xs + sum_by f ys
  sum_by-append [] ys = omega arith
  sum_by-append (x ∷ xs) ys = omega (arith, sum_by-append xs ys)

  sum_by-insert :
      (before : A → A → Bool) (a : A) (bs : List A)
      → sum_by f (insert before a bs) ≡ f a + sum_by f bs
  unfolding insert
  sum_by-insert before a [] = refl
  sum_by-insert before a (b ∷ bs) = ground (arith, sum_by-insert before a bs)

  pub sum_by-sort :
      (before : A → A → Bool) (as' : List A) → sum_by f (sort before as') ≡ sum_by f as'
  unfolding sort
  sum_by-sort before [] = refl
  sum_by-sort before (a ∷ as') =
      ground (arith, sum_by-insert before a (sort before as'), sum_by-sort before as')

module _ {ℓ} {A : Type ℓ} (f : A → ℤ) where
  pub sum_by_ℤ-append : (xs ys : List A) → sum_by_ℤ f (xs ++ ys) ≡ sum_by_ℤ f xs +ℤ sum_by_ℤ f ys
  sum_by_ℤ-append [] ys = omega int_laws
  sum_by_ℤ-append (x ∷ xs) ys = rw (sum_by_ℤ-append xs ys) (omega int_laws)

  sum_by_ℤ-insert :
      (before : A → A → Bool) (a : A) (bs : List A)
      → sum_by_ℤ f (insert before a bs) ≡ f a +ℤ sum_by_ℤ f bs
  unfolding insert
  sum_by_ℤ-insert before a [] = refl
  sum_by_ℤ-insert before a (b ∷ bs) = elim (Bool-cases (before a b)) [
    | inl e ↦ rw e
    | inr e ↦ rw (e, sum_by_ℤ-insert before a bs) (omega int_laws)
  ]

  pub sum_by_ℤ-sort :
      (before : A → A → Bool) (as' : List A) → sum_by_ℤ f (sort before as') ≡ sum_by_ℤ f as'
  unfolding sort
  sum_by_ℤ-sort before [] = refl
  sum_by_ℤ-sort before (a ∷ as') =
      rw (sum_by_ℤ-insert before a (sort before as'), sum_by_ℤ-sort before as')
