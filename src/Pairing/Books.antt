-- ===== src/Pairing/Books.antt =====
-- Sums over all open lots of the books of src/services/trade_pairing.py, and invariants of each book.
use Prim.Native.String.{String}
use text.Mathlib.Text.{◌==◌ as str_eq}
use text.Mathlib.TextEquality.{eq_iff}
use mqs_backtest_visualizer.Prelude.{◌≡◌, refl, List, [], ◌∷◌, Bool-cases, inl, inr, subst, sym}
use mqs_backtest_visualizer.Prelude.Int.{ℤ, ◌+ℤ◌, int_laws, parts_eq}
use mqs_backtest_visualizer.Prelude.Sums.{sum_by_ℤ, sum_by_ℤ-append}
use mqs_backtest_visualizer.Pairing.Match.{Lot, Books, book_of, put_book, pairs_of, with_name}

abbrev pub pair_value : (String → Lot → ℤ) → String × Lot → ℤ
pair_value f (t, lot) = f t lot

-- A quantity of every open lot, with its ticker, added up.
abbrev pub total : (String → Lot → ℤ) → Books → ℤ
total f books = sum_by_ℤ (pair_value f) (pairs_of books)

module _ (f : String → Lot → ℤ) where
  pub sum-with_name :
      (t : String) (lots : List Lot)
      → sum_by_ℤ (pair_value f) (with_name t lots) ≡ sum_by_ℤ (f t) lots
  sum-with_name t [] = refl
  sum-with_name t (lot ∷ lots) = rw (sum-with_name t lots)

  total-cons :
      (t : String) (lots : List Lot) (books : Books)
      → total f ((t, lots) ∷ books) ≡ sum_by_ℤ (f t) lots +ℤ total f books
  total-cons t lots books =
      rw (sum_by_ℤ-append (pair_value f) (with_name t lots) (pairs_of books), sum-with_name t lots)

  -- Replacing a ticker's book exchanges its part of the total.
  pub total-put_book :
      (t : String) (lots : List Lot) (books : Books)
      → total f (put_book t lots books) +ℤ sum_by_ℤ (f t) (book_of t books)
        ≡ total f books +ℤ sum_by_ℤ (f t) lots
  total-put_book t lots [] = rw (total-cons t lots []) (omega int_laws)
  total-put_book t lots ((k, old) ∷ books) = elim (Bool-cases (str_eq k t)) [
    | inl e ↦
        rw (e, total-cons k lots books, total-cons k old books, (eq_iff k t).0 e) (omega int_laws)
    | inr e ↦
        rw (e, total-cons k old (put_book t lots books), total-cons k old books)
          (omega (int_laws, parts_eq (total-put_book t lots books)))
  ]

-- A property of every book, under its ticker.
abbrev pub AllBooks {ℓ} : (String → List Lot → Type ℓ) → Books → Type ℓ
AllBooks P [] = Unit
AllBooks P ((t, lots) ∷ books) = P t lots × AllBooks P books

module _ {ℓ} (P : String → List Lot → Type ℓ) (empty : (t : String) → P t []) where
  pub AllBooks-book_of : (t : String) (books : Books) → AllBooks P books → P t (book_of t books)
  AllBooks-book_of t [] h = empty t
  AllBooks-book_of t ((k, lots) ∷ books) h = elim (Bool-cases (str_eq k t)) [
    | inl e ↦ rw e (subst (λ n. P n lots) ((eq_iff k t).0 e) h.0)
    | inr e ↦ rw e (AllBooks-book_of t books h.1)
  ]

module _ {ℓ} (P : String → List Lot → Type ℓ) where
  pub AllBooks-put_book :
      (t : String) (lots : List Lot) (books : Books)
      → AllBooks P books
      → P t lots
      → AllBooks P (put_book t lots books)
  AllBooks-put_book t lots [] h p = (p, tt)
  AllBooks-put_book t lots ((k, old) ∷ books) h p = elim (Bool-cases (str_eq k t)) [
    | inl e ↦ rw e (subst (λ n. P n lots) (sym ((eq_iff k t).0 e)) p, h.1)
    | inr e ↦ rw e (h.0, AllBooks-put_book t lots books h.1 p)
  ]
