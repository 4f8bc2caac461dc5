-- ===== src/Pairing/Loop.antt =====
-- The `while` loop of `pair_fills` (src/services/trade_pairing.py) as a big-step relation: how a fill
-- ends, lot by lot. The loop with its fuel is in the relation, so that it always ends by its test.
use mqs_backtest_visualizer.Prelude.{
  ℕ, zero, suc, ◌+◌, ◌-◌, ◌≤◌, ◌<◌, min, ◌≡◌, refl, true, false, List, [], ◌∷◌, arith, leb, length,
  Bool-cases, inl, inr,
}
use mqs_backtest_visualizer.Prelude.Sums.{sum_by}
use mqs_backtest_visualizer.Pairing.Fill.{Fill}
use mqs_backtest_visualizer.Pairing.Match.{
  Lot, Row, Closing, opposes, closes, shrink, close_lots, close_against, round_trip,
}

module _ (eps : ℕ) (fill : Fill) where
  pub data Closes : ℕ → List Lot → Closing → Type 0 where
    -- the fill is used up, or no opposing lot is at the front
    stop :
        {remaining : ℕ} {lots : List Lot}
        → closes eps fill remaining lots ≡ false
        → Closes remaining lots (record { remaining = remaining; lots = lots; trips = [] })
    -- the fill is used up within the front lot
    part :
        {remaining : ℕ} {lot : Lot} {lots : List Lot}
        → opposes lot.direction fill.direction ≡ true
        → eps < remaining
        → remaining < lot.quantity
        → Closes remaining (lot ∷ lots) (record {
          remaining = 0;
          lots = shrink eps lot remaining lots;
          trips = round_trip lot fill remaining ∷ [];
        })
    -- the front lot is closed whole
    full :
        {remaining : ℕ} {lot : Lot} {lots : List Lot} {rest : Closing}
        → opposes lot.direction fill.direction ≡ true
        → eps < remaining
        → lot.quantity ≤ remaining
        → Closes (remaining - lot.quantity) lots rest
        → Closes remaining (lot ∷ lots) (record {
          remaining = rest.remaining;
          lots = rest.lots;
          trips = round_trip lot fill lot.quantity ∷ rest.trips;
        })

  close_lots-used_up :
      (fuel : ℕ) (lots : List Lot)
      → close_lots eps fuel fill 0 lots ≡ record { remaining = 0; lots = lots; trips = [] }
  unfolding close_lots
  close_lots-used_up zero lots = refl
  close_lots-used_up (suc fuel) [] = refl
  close_lots-used_up (suc fuel) (lot ∷ lots) = ground arith

  test_passed :
      (remaining : ℕ) (lot : Lot) (lots : List Lot)
      → closes eps fill remaining (lot ∷ lots) ≡ true
      → (opposes lot.direction fill.direction ≡ true) × (eps < remaining)
  test_passed remaining lot lots h = ground arith

  -- With one turn more than there are lots the loop ends by its test.
  pub close_lots-Closes :
      (fuel : ℕ) (remaining : ℕ) (lots : List Lot)
      → length lots < fuel
      → Closes remaining lots (close_lots eps fuel fill remaining lots)
  unfolding close_lots
  close_lots-Closes zero remaining lots h = elim h [ ]
  close_lots-Closes (suc fuel) remaining [] h = stop refl
  close_lots-Closes (suc fuel) remaining (lot ∷ lots) h =
      elim (Bool-cases (closes eps fill remaining (lot ∷ lots))) [
        | inl more ↦
            let (o, s) = test_passed remaining lot lots more in
            elim (Bool-cases (leb lot.quantity remaining)) [
              | inl all ↦
                  let e : min remaining lot.quantity ≡ lot.quantity = ground arith in
                  let d : leb (lot.quantity - lot.quantity) eps ≡ true = ground arith in
                  rw (more, e, d)
                    (full o s (ground arith)
                      (close_lots-Closes fuel (remaining - lot.quantity) lots (omega arith)))
              | inr less ↦
                  let e : min remaining lot.quantity ≡ remaining = ground arith in
                  let z : remaining - remaining ≡ 0 = omega arith in
                  rw (more, e, z, close_lots-used_up) (part o s (ground arith))
            ]
        | inr stopped ↦ rw stopped (stop stopped)
      ]

  -- The loop ends every fill as the relation says, with the turns that `close_against` gives it.
  pub close_against-Closes :
      (lots : List Lot) → Closes fill.quantity lots (close_against eps fill lots)
  unfolding close_against
  close_against-Closes lots = close_lots-Closes (suc (length lots)) fill.quantity lots (omega arith)

  -- When the loop ends its test fails.
  pub Closes-ends :
      {remaining : ℕ} {lots : List Lot} {c : Closing}
      → Closes remaining lots c
      → closes eps fill c.remaining c.lots ≡ false
  Closes-ends (stop h) = h
  Closes-ends (part {remaining = n} {lot = lot} {lots = lots} o s h) =
      used_up (shrink eps lot n lots)
    where
      used_up : (ls : List Lot) → closes eps fill 0 ls ≡ false
      used_up [] = refl
      used_up (l ∷ ls) = ground arith
  Closes-ends (full o s h rest) = Closes-ends rest

  -- The shares of the fill are those of its round trips and those that remain.
  pub Closes-quantity :
      {remaining : ℕ} {lots : List Lot} {c : Closing}
      → Closes remaining lots c
      → c.remaining + sum_by (λ (r : Row). r.quantity) c.trips ≡ remaining
  unfolding round_trip
  Closes-quantity (stop h) = omega arith
  Closes-quantity (part o s h) = omega arith
  Closes-quantity (full o s h rest) = omega (arith, Closes-quantity rest)
