-- ===== src/Pairing/Fifo.antt =====
-- The `while` loop of `pair_fills` (src/services/trade_pairing.py), share by share: a fill takes
-- the oldest shares of the other side first.
use mqs_backtest_visualizer.Prelude.{
  ℕ, ◌+◌, ◌-◌, ◌≤◌, ◌<◌, ◌≡◌, ◌⊎◌, refl, sym, ap, ◌∙◌, true, false, some, List, [], ◌∷◌, ◌++◌,
  arith, leb, length, All, Bool-cases, inl, inr,
}
use mqs_backtest_visualizer.Prelude.Text.{take, drop}
use mqs_backtest_visualizer.Prelude.Sums.{sum_by}
use mqs_backtest_visualizer.Pairing.Fill.{Fill, Direction, long, short}
use mqs_backtest_visualizer.Pairing.Match.{
  Lot, Row, Closing, opposes, shrink, close_against, round_trip,
}
use mqs_backtest_visualizer.Pairing.Loop.{Closes, stop, part, full, close_against-Closes}
use mqs_backtest_visualizer.Pairing.Shares.{
  Share, times, shares_of, closed_shares, take-times, drop-times, take-past, drop-past,
  length-times, append_assoc, append_nil, shares_of-append,
}

pub data OtherSide : Direction → Direction → Type 0 where
  long_short : OtherSide long short
  short_long : OtherSide short long

abbrev pub Opposing : Fill → Lot → Type 0
Opposing fill lot = OtherSide lot.direction fill.direction

-- The lots after those that the fill may close.
abbrev pub Stays : Fill → List Lot → Type 0
Stays fill [] = Unit
Stays fill (lot ∷ lots) = lot.direction ≡ fill.direction

abbrev pub ClosedBy : Fill → Row → Type 0
ClosedBy fill row = (row.exit_price ≡ some fill.price) × (row.exit_date ≡ some fill.day_of)

abbrev pub matched_by : Closing → ℕ
matched_by c = sum_by (λ (r : Row). r.quantity) c.trips

-- A fill of so many shares takes the oldest of `front`: as many as it has, or all there are. A rest
-- of a lot within the tolerance is dropped with them.
abbrev pub TakesOldest : ℕ → Fill → ℕ → List Lot → List Lot → Closing → Type 0
TakesOldest eps fill quantity front back c =
    (c.remaining + matched_by c ≡ quantity)
    × (closed_shares c.trips ≡ take (matched_by c) (shares_of front))
    × ((d : ℕ) × (d ≤ eps)
        × (shares_of c.lots ≡ drop (matched_by c + d) (shares_of front) ++ shares_of back))
    × ((c.remaining ≤ eps) ⊎ (matched_by c ≡ length (shares_of front)))
    × All (ClosedBy fill) c.trips

OtherSide-opposes : (a b : Direction) → OtherSide a b → opposes a b ≡ true
OtherSide-opposes long long x = elim x [ ]
OtherSide-opposes short short x = elim x [ ]
OtherSide-opposes long short long_short = refl
OtherSide-opposes short long short_long = refl

opposes_irrefl : (a : Direction) → opposes a a ≡ false
opposes_irrefl long = refl
opposes_irrefl short = refl

stays_shut :
    (fill : Fill) (lot : Lot)
    → lot.direction ≡ fill.direction
    → opposes lot.direction fill.direction ≡ true
    → ⊥
stays_shut fill lot e h =
    let no : opposes lot.direction fill.direction ≡ false = rw e (opposes_irrefl fill.direction) in
    cc

module _ (eps : ℕ) (fill : Fill) where
  -- What is left of a lot that is closed in part.
  shrink-shares :
      (lot : Lot) (n : ℕ) (lots : List Lot)
      → n ≤ lot.quantity
      → (d : ℕ) × (d ≤ eps)
        × (n + d ≤ lot.quantity)
        × (shares_of (shrink eps lot n lots)
            ≡ times (lot.quantity - (n + d)) (lot.direction, lot.price, lot.day_of)
              ++ shares_of lots)
  shrink-shares lot n lots h = elim (Bool-cases (leb (lot.quantity - n) eps)) [
    | inl small ↦
        let e : lot.quantity - (n + (lot.quantity - n)) ≡ 0 = omega (arith, h) in
        (lot.quantity - n, ground (arith, small), omega (arith, h), rw (small, e) refl)
    | inr large ↦
        let e : n + 0 ≡ n = omega arith in (0, omega arith, omega (arith, h), rw (large, e) refl)
  ]

  stop-TakesOldest :
      (remaining : ℕ) (front back : List Lot)
      → (remaining ≤ eps) ⊎ (0 ≡ length (shares_of front))
      → TakesOldest eps fill remaining front back
          (record { remaining = remaining; lots = front ++ back; trips = [] })
  stop-TakesOldest remaining front back h =
      (omega arith, refl, (0, omega arith, shares_of-append front back), h, tt)

  part-TakesOldest :
      (remaining : ℕ) (lot : Lot) (front back : List Lot)
      → remaining < lot.quantity
      → TakesOldest eps fill remaining (lot ∷ front) back (record {
        remaining = 0;
        lots = shrink eps lot remaining (front ++ back);
        trips = round_trip lot fill remaining ∷ [];
      })
  unfolding round_trip
  part-TakesOldest remaining lot front back h =
      let s : Share = (lot.direction, lot.price, lot.day_of) in
      let below : remaining ≤ lot.quantity = omega (arith, h) in
      let (d, small, within, left) = shrink-shares lot remaining (front ++ back) below in
      let k = lot.quantity - (remaining + d) in
      let all : remaining + 0 ≡ remaining = omega arith in
      let passed : drop (remaining + 0 + d) (times lot.quantity s ++ shares_of front)
          ≡ times k s ++ shares_of front =
        rw all (drop-times (remaining + d) lot.quantity s (shares_of front) within) in
      (
        omega arith,
        append_nil (times remaining s)
            ∙ rw (all, take-times remaining lot.quantity s (shares_of front) below) refl,
        (
          d,
          small,
          left
              ∙ ap (λ l. times k s ++ l) (shares_of-append front back)
              ∙ sym (append_assoc (times k s) (shares_of front) (shares_of back))
              ∙ sym (ap (λ l. l ++ shares_of back) passed),
        ),
        inl (omega arith),
        ((refl, refl), tt),
      )

  full-TakesOldest :
      (remaining : ℕ) (lot : Lot) (front back : List Lot) (rest : Closing)
      → lot.quantity ≤ remaining
      → TakesOldest eps fill (remaining - lot.quantity) front back rest
      → TakesOldest eps fill remaining (lot ∷ front) back (record {
        remaining = rest.remaining;
        lots = rest.lots;
        trips = round_trip lot fill lot.quantity ∷ rest.trips;
      })
  unfolding round_trip
  full-TakesOldest remaining lot front back rest h (sum, trips, (d, small, left), ends, by) =
      let s : Share = (lot.direction, lot.price, lot.day_of) in
      let m = matched_by rest in
      let sum_d : lot.quantity + m + d ≡ lot.quantity + (m + d) = omega arith in
      let passed : drop (lot.quantity + m + d) (times lot.quantity s ++ shares_of front)
          ≡ drop (m + d) (shares_of front) =
        rw sum_d (drop-past (m + d) lot.quantity s (shares_of front)) in
      let long_as = length-times lot.quantity s (shares_of front) in
      (
        omega (arith, sum, h),
        ap (λ l. times lot.quantity s ++ l) trips
            ∙ sym (take-past m lot.quantity s (shares_of front)),
        (d, small, left ∙ sym (ap (λ l. l ++ shares_of back) passed)),
        elim ends [ inl used ↦ inl used | inr all ↦ inr (omega (arith, all, long_as)) ],
        ((refl, refl), by),
      )

  Closes-TakesOldest :
      (front back : List Lot) {remaining : ℕ} {c : Closing}
      → All (Opposing fill) front
      → Stays fill back
      → Closes eps fill remaining (front ++ back) c
      → TakesOldest eps fill remaining front back c
  Closes-TakesOldest [] back all stays (stop {remaining = n} h) =
      stop-TakesOldest n [] back (inr refl)
  Closes-TakesOldest [] (b ∷ back) all stays (part o s h) = absurd (stays_shut fill b stays o)
  Closes-TakesOldest [] (b ∷ back) all stays (full o s h rest) = absurd (stays_shut fill b stays o)
  Closes-TakesOldest (lot ∷ front) back all stays (stop {remaining = n} h) =
      let open_ : opposes lot.direction fill.direction ≡ true =
        OtherSide-opposes lot.direction fill.direction all.0 in
      stop-TakesOldest n (lot ∷ front) back (inl (ground (arith, h, open_)))
  Closes-TakesOldest (lot ∷ front) back all stays (part {remaining = n} o s h) =
      part-TakesOldest n lot front back h
  Closes-TakesOldest (lot ∷ front) back all stays (full {remaining = n} {rest = rest} o s h more) =
      full-TakesOldest n lot front back rest h (Closes-TakesOldest front back all.1 stays more)

  -- If a ticker's lots are some of the other side of a fill and then none or lots of its own side
  -- first, the loop takes the fill's shares from the oldest of the other side: the shares of its
  -- round trips are, in order, with their prices and days, the first so many of them, closed at the
  -- price and day of the fill; the lots left are those that follow, less a rest within the
  -- tolerance; and what remains of the fill is within the tolerance, or every share of the other
  -- side is taken.
  pub close_against_lem :
      (front back : List Lot)
      → All (Opposing fill) front
      → Stays fill back
      → TakesOldest eps fill fill.quantity front back (close_against eps fill (front ++ back))
  close_against_lem front back all stays =
      Closes-TakesOldest front back all stays (close_against-Closes eps fill (front ++ back))
