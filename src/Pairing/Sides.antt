-- ===== src/Pairing/Sides.antt =====
-- The invariant of the books of src/services/trade_pairing.py: a ticker's open lots lie all on one
-- side, and each holds more than the tolerance.
use mqs_backtest_visualizer.Prelude.{
  ℕ, ◌-◌, ◌<◌, ◌≡◌, refl, false, List, [], ◌∷◌, arith, ltb, leb, All, All-append, Bool-cases, inl,
  inr, subst, sym, ◌∙◌,
}
use mqs_backtest_visualizer.Pairing.Fill.{Direction, long, short, Fill}
use mqs_backtest_visualizer.Pairing.Match.{
  Lot, Closing, Pairing, opposes, closes, shrink, close_against, apply_fill, apply_fills, book_of,
}
use mqs_backtest_visualizer.Pairing.Books.{AllBooks, AllBooks-book_of, AllBooks-put_book}
use mqs_backtest_visualizer.Pairing.Loop.{
  Closes, stop, part, full, close_against-Closes, Closes-ends,
}
use mqs_backtest_visualizer.Pairing.Position.{left_by, books-apply_fill}

faces : (d e : Direction) → opposes d e ≡ false → d ≡ e
faces long long h = refl
faces short short h = refl
faces long short h = cc
faces short long h = cc

module _ (eps : ℕ) where
  abbrev pub OnSide : Direction → Lot → Type 0
  OnSide d lot = (lot.direction ≡ d) × (eps < lot.quantity)

  abbrev pub OneSided : List Lot → Type 0
  OneSided lots = (d : Direction) × All (OnSide d) lots

  shrink-OnSide :
      (d : Direction) (matched : ℕ) (lot : Lot) (lots : List Lot)
      → All (OnSide d) (lot ∷ lots)
      → All (OnSide d) (shrink eps lot matched lots)
  shrink-OnSide d matched lot lots h = elim (Bool-cases (leb (lot.quantity - matched) eps)) [
    | inl e ↦ rw e h.1
    | inr e ↦ rw e ((h.0.0, ground arith), h.1)
  ]

  Closes-OnSide :
      {fill : Fill} {remaining : ℕ} {lots : List Lot} {c : Closing} (d : Direction)
      → Closes eps fill remaining lots c
      → All (OnSide d) lots
      → All (OnSide d) c.lots
  Closes-OnSide d (stop e) h = h
  Closes-OnSide d (part {remaining = n} {lot = lot} {lots = lots} o s e) h =
      shrink-OnSide d n lot lots h
  Closes-OnSide d (full o s e rest) h = Closes-OnSide d rest h.1

  -- A lot that does not oppose the fill at the front puts all on the fill's side.
  same_side :
      (d : Direction) (fill : Fill) (remaining : ℕ) (lots : List Lot)
      → closes eps fill remaining lots ≡ false
      → eps < remaining
      → All (OnSide d) lots
      → All (OnSide fill.direction) lots
  same_side d fill remaining [] e s h = tt
  same_side d fill remaining (lot ∷ lots) e s h =
      let front : lot.direction ≡ fill.direction =
        faces lot.direction fill.direction (ground arith) in
      subst (λ x. All (OnSide x) (lot ∷ lots)) (sym h.0.0 ∙ front) h

  left_by-OneSided :
      (fill : Fill) (index : ℕ) (lots : List Lot)
      → OneSided lots
      → OneSided (left_by eps fill index (close_against eps fill lots))
  left_by-OneSided fill index lots (d, h) =
      let c = close_against eps fill lots in
      let run = close_against-Closes eps fill lots in
      elim (Bool-cases (ltb eps c.remaining)) [
        | inl e ↦ rw e (
          fill.direction,
          All-append (OnSide fill.direction) c.lots _
              (same_side d fill c.remaining c.lots (Closes-ends eps fill run) (ground arith)
                (Closes-OnSide d run h))
              ((refl, ground arith), tt),
        )
        | inr e ↦ rw e (d, Closes-OnSide d run h)
      ]

  apply_fill-OneSided :
      (s : Pairing) (fill : Fill)
      → AllBooks (λ t. OneSided) s.books
      → AllBooks (λ t. OneSided) (apply_fill eps s fill).books
  apply_fill-OneSided s fill h = rw (books-apply_fill eps s fill) (
      AllBooks-put_book (λ t. OneSided) fill.ticker _ s.books h
        (left_by-OneSided fill s.open_index (book_of fill.ticker s.books)
          (AllBooks-book_of (λ t. OneSided) (λ t. (long, tt)) fill.ticker s.books h)))

  -- After any fills no ticker has open lots on both sides, and no open lot is within the tolerance.
  pub apply_fills-OneSided :
      (s : Pairing) (fills : List Fill)
      → AllBooks (λ t. OneSided) s.books
      → AllBooks (λ t. OneSided) (apply_fills eps s fills).books
  unfolding apply_fills
  apply_fills-OneSided s [] h = h
  apply_fills-OneSided s (fill ∷ fills) h =
      apply_fills-OneSided (apply_fill eps s fill) fills (apply_fill-OneSided s fill h)
