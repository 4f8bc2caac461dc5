-- ===== src/Pairing/Position.antt =====
-- What pairing does to positions (src/services/trade_pairing.py): the lots left open hold what the
-- fills bought and sold, up to the tolerance that the loop discards.
use Prim.Native.String.{String}
use text.Mathlib.Text.{◌==◌ as str_eq}
use mqs_backtest_visualizer.Prelude.{
  ℕ, ◌+◌, ◌-◌, ◌*◌, ◌≤◌, ◌≡◌, refl, true, false, List, [], ◌∷◌, ◌++◌, arith, ltb, leb,
  if◌then◌else◌, length, Bool-cases, inl, inr,
}
use mqs_backtest_visualizer.Prelude.Int.{
  ℤ, pos, negsuc, pos_part, neg_part, sub_ℕ, ◌+ℤ◌, ◌-ℤ◌, ◌≤ℤ◌, int_laws, parts_eq,
}
use mqs_backtest_visualizer.Prelude.Sums.{sum_by_ℤ, sum_by_ℤ-append}
use mqs_backtest_visualizer.Pairing.Fill.{Direction, long, short, Fill}
use mqs_backtest_visualizer.Pairing.Match.{
  Lot, Closing, Books, Pairing, start, opposes, shrink, lot_of, close_against, apply_fill,
  apply_fills, book_of, put_book,
}
use mqs_backtest_visualizer.Pairing.Books.{total, total-put_book}
use mqs_backtest_visualizer.Pairing.Loop.{Closes, stop, part, full, close_against-Closes}

-- `quantity` shares bought, or sold
unfoldable pub signed : Direction → ℕ → ℤ
signed long n = pos n
signed short n = sub_ℕ 0 n

abbrev pub opposite : Direction → Direction
opposite long = short
opposite short = long

pub signed_long : (n : ℕ) → (pos_part (signed long n) ≡ n) × (neg_part (signed long n) ≡ 0)
unfolding signed
signed_long n = ground arith

pub signed_short : (n : ℕ) → (pos_part (signed short n) ≡ 0) × (neg_part (signed short n) ≡ n)
unfolding signed
signed_short n = ground arith

pub ruleset signed_laws = (int_laws, signed_long, signed_short)

abbrev pub lot_net : Lot → ℤ
lot_net lot = signed lot.direction lot.quantity

-- Two integers differ by at most `k`.
pub record Near (k : ℕ) (a b : ℤ) : Type 0 where
  pub above : a ≤ℤ b +ℤ pos k
  pub below : b ≤ℤ a +ℤ pos k

-- A lot that the fill uses up takes its shares from what remains.
use_up :
    (d e : Direction) (q remaining : ℕ) (x : ℤ)
    → opposes d e ≡ true
    → q ≤ remaining
    → signed d q +ℤ x +ℤ signed e remaining ≡ x +ℤ signed e (remaining - q)
use_up long short q remaining x o h = omega signed_laws
use_up short long q remaining x o h = omega signed_laws
use_up long long q remaining x o h = cc
use_up short short q remaining x o h = cc

-- A fill that the lot uses up leaves the rest of the lot.
leave :
    (d e : Direction) (q remaining : ℕ) (x : ℤ)
    → opposes d e ≡ true
    → remaining ≤ q
    → signed d q +ℤ x +ℤ signed e remaining ≡ signed d (q - remaining) +ℤ x +ℤ signed e 0
leave long short q remaining x o h = omega signed_laws
leave short long q remaining x o h = omega signed_laws
leave long long q remaining x o h = cc
leave short short q remaining x o h = cc

signed_small :
    (d e : Direction) (n k : ℕ) (x : ℤ)
    → n ≤ k
    → Near k (signed d n +ℤ x +ℤ signed e 0) (x +ℤ signed e 0)
signed_small long long n k x h = omega signed_laws
signed_small long short n k x h = omega signed_laws
signed_small short long n k x h = omega signed_laws
signed_small short short n k x h = omega signed_laws

signed_drop : (d : Direction) (n k : ℕ) (x : ℤ) → n ≤ k → Near k (x +ℤ signed d n) x
signed_drop long n k x h = omega signed_laws
signed_drop short n k x h = omega signed_laws

Near-refl : (k : ℕ) (a : ℤ) → Near k a a
Near-refl k a = omega int_laws

Near-trans : {j k : ℕ} {a b c : ℤ} → Near j a b → Near k b c → Near (j + k) a c
Near-trans h g = omega int_laws

Near-same : {k : ℕ} {a b c : ℤ} → a ≡ b → Near k b c → Near k a c
Near-same e h = rw e h

module _ (eps : ℕ) where
  -- What is left of the lot that ends the fill is kept, or dropped if it is within the tolerance.
  shrink-net :
      (e : Direction) (remaining : ℕ) (lot : Lot) (lots : List Lot)
      → opposes lot.direction e ≡ true
      → remaining ≤ lot.quantity
      → Near eps
          (lot_net lot +ℤ sum_by_ℤ lot_net lots +ℤ signed e remaining)
          (sum_by_ℤ lot_net (shrink eps lot remaining lots) +ℤ signed e 0)
  shrink-net e remaining lot lots o h =
      Near-same (leave lot.direction e lot.quantity remaining (sum_by_ℤ lot_net lots) o h)
        (elim (Bool-cases (leb (lot.quantity - remaining) eps)) [
          | inl dust ↦ rw dust (
              signed_small lot.direction e (lot.quantity - remaining) eps (sum_by_ℤ lot_net lots)
                (ground arith))
          | inr kept ↦ rw kept (Near-refl eps _)
        ])

  -- The position of the lots and of what remains, before and after the loop.
  Closes-net :
      {fill : Fill} {remaining : ℕ} {lots : List Lot} {c : Closing}
      → Closes eps fill remaining lots c
      → Near eps
          (sum_by_ℤ lot_net lots +ℤ signed fill.direction remaining)
          (sum_by_ℤ lot_net c.lots +ℤ signed fill.direction c.remaining)
  Closes-net (stop h) = Near-refl eps _
  Closes-net {fill} (part {remaining = n} {lot = lot} {lots = lots} o s h) =
      shrink-net fill.direction n lot lots o (omega arith)
  Closes-net {fill} (full {remaining = n} {lot = lot} {lots = lots} o s h rest) =
      Near-same (use_up lot.direction fill.direction lot.quantity n (sum_by_ℤ lot_net lots) o h)
        (Closes-net rest)

abbrev pub held_by : String → String → Lot → ℤ
held_by t k lot = if str_eq k t then lot_net lot else pos 0

-- The signed position of a ticker in the open lots.
abbrev pub held : String → Books → ℤ
held t books = total (held_by t) books

-- What a fill does to the position of a ticker.
abbrev pub bought_by : String → Fill → ℤ
bought_by t fill = if str_eq fill.ticker t then signed fill.direction fill.quantity else pos 0

own_book :
    (t k : String) (lots : List Lot)
    → str_eq k t ≡ true
    → sum_by_ℤ (held_by t k) lots ≡ sum_by_ℤ lot_net lots
own_book t k [] e = refl
own_book t k (lot ∷ lots) e = rw (own_book t k lots e, e)

other_book :
    (t k : String) (lots : List Lot) → str_eq k t ≡ false → sum_by_ℤ (held_by t k) lots ≡ pos 0
other_book t k [] e = refl
other_book t k (lot ∷ lots) e = rw (other_book t k lots e, e) (omega int_laws)

-- The book that a fill leaves: the lots that it did not close, and the lot that it opens.
abbrev pub left_by : ℕ → Fill → ℕ → Closing → List Lot
left_by eps fill index c =
    if ltb eps c.remaining then c.lots ++ lot_of fill c.remaining index ∷ [] else c.lots

module _ (eps : ℕ) where
  pub books-apply_fill :
      (s : Pairing) (fill : Fill)
      → (apply_fill eps s fill).books
        ≡ put_book fill.ticker
            (left_by eps fill s.open_index (close_against eps fill (book_of fill.ticker s.books)))
            s.books
  unfolding apply_fill
  books-apply_fill s fill =
      elim (Bool-cases (ltb eps (close_against eps fill (book_of fill.ticker s.books)).remaining)) [
        | inl e ↦ rw e
        | inr e ↦ rw e
      ]

  pub closed-apply_fill :
      (s : Pairing) (fill : Fill)
      → (apply_fill eps s fill).closed
        ≡ s.closed ++ (close_against eps fill (book_of fill.ticker s.books)).trips
  unfolding apply_fill
  closed-apply_fill s fill =
      elim (Bool-cases (ltb eps (close_against eps fill (book_of fill.ticker s.books)).remaining)) [
        | inl e ↦ rw e
        | inr e ↦ rw e
      ]

  left_by-net :
      (fill : Fill) (index : ℕ) (c : Closing)
      → Near eps
          (sum_by_ℤ lot_net c.lots +ℤ signed fill.direction c.remaining)
          (sum_by_ℤ lot_net (left_by eps fill index c))
  left_by-net fill index c = elim (Bool-cases (ltb eps c.remaining)) [
    | inl e ↦
        rw (e, sum_by_ℤ-append lot_net c.lots (lot_of fill c.remaining index ∷ [])) (omega int_laws)
    | inr e ↦
        rw e (signed_drop fill.direction c.remaining eps (sum_by_ℤ lot_net c.lots) (ground arith))
  ]

  book-Near :
      (fill : Fill) (index : ℕ) (lots : List Lot)
      → Near
          (eps + eps)
          (sum_by_ℤ lot_net lots +ℤ signed fill.direction fill.quantity)
          (sum_by_ℤ lot_net (left_by eps fill index (close_against eps fill lots)))
  book-Near fill index lots =
      Near-trans (Closes-net eps (close_against-Closes eps fill lots))
        (left_by-net fill index (close_against eps fill lots))

  apply_fill-Near :
      (t : String) (s : Pairing) (fill : Fill)
      → Near (eps + eps) (held t s.books +ℤ bought_by t fill) (held t (apply_fill eps s fill).books)
  apply_fill-Near t s fill =
      let lots = book_of fill.ticker s.books in
      let after = left_by eps fill s.open_index (close_against eps fill lots) in
      let moved = total-put_book (held_by t) fill.ticker after s.books in
      rw (books-apply_fill s fill) (elim (Bool-cases (str_eq fill.ticker t)) [
        | inl e ↦ rw e (
            omega (
              int_laws,
              parts_eq moved,
              parts_eq (own_book t fill.ticker lots e),
              parts_eq (own_book t fill.ticker after e),
              book-Near fill s.open_index lots,
            ))
        | inr e ↦ rw e (
            omega (
              int_laws,
              parts_eq moved,
              parts_eq (other_book t fill.ticker lots e),
              parts_eq (other_book t fill.ticker after e),
            ))
      ])

  apply_fills-Near :
      (t : String) (s : Pairing) (fills : List Fill)
      → Near
          (2 * eps * length fills)
          (held t s.books +ℤ sum_by_ℤ (bought_by t) fills)
          (held t (apply_fills eps s fills).books)
  unfolding apply_fills
  apply_fills-Near t s [] = omega int_laws
  apply_fills-Near t s (fill ∷ fills) =
      omega (int_laws, apply_fill-Near t s fill, apply_fills-Near t (apply_fill eps s fill) fills)

-- Of every ticker the open lots hold the shares that its fills bought less those that they sold,
-- up to twice the tolerance for each fill; with no tolerance they hold exactly those.
pub apply_fills-held :
    (eps : ℕ) (t : String) (fills : List Fill)
    → Near
        (2 * eps * length fills)
        (sum_by_ℤ (bought_by t) fills)
        (held t (apply_fills eps start fills).books)
apply_fills-held eps t fills = omega (int_laws, apply_fills-Near eps t start fills)
