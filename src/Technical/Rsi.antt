-- ===== src/Technical/Rsi.antt =====
-- What `relative_strength_index` promises (src/services/technical_indicators.py).
use native.Mathlib.Nat.{mul-pos}
use mqs_backtest_visualizer.Prelude.{
  ℕ, zero, suc, ◌+◌, ◌-◌, ◌*◌, ◌≤◌, ◌<◌, ◌≡◌, refl, sym, ap, subst, ◌∙◌, inl, inr, ◌⊎◌, false, List,
  [], ◌∷◌, ltb, ◌==◌, lt→ltb, arith, ok, ◌>>◌, length,
}
use mqs_backtest_visualizer.Prelude.Int.{ℤ}
use mqs_backtest_visualizer.Prelude.Text.{take, drop}
use mqs_backtest_visualizer.Technical.Averages.{require_length}
use mqs_backtest_visualizer.Technical.Strength.{
  Mean, mean_of, sum, wilder_step, wilder_loop, wilder, strength, at_most_hundred, rsi_of, rises,
  falls, relative_strength_index,
}

abbrev num_of : Mean → ℕ
num_of m = m.num

zero_or_positive : (n : ℕ) → (n ≡ 0) ⊎ (0 < n)
zero_or_positive zero = inl refl
zero_or_positive (suc n) = inr (omega arith)

sum-split : (n : ℕ) (ns : List ℕ) → sum (take n ns) + sum (drop n ns) ≡ sum ns
sum-split zero ns = omega arith
sum-split (suc n) [] = omega arith
sum-split (suc n) (m ∷ ns) = omega (arith, sum-split n ns)

-- The average of amounts that are all zero is zero, and one that is not makes it positive, if the
-- period is more than one.
loop-zero :
    (period : ℕ) (m : Mean) (ns : List ℕ)
    → m.num ≡ 0
    → sum ns ≡ 0
    → (wilder_loop period m ns).num ≡ 0
loop-zero period m [] h k = h
loop-zero period m (n ∷ ns) h k =
    let none_here : n ≡ 0 = omega (arith, k) in
    loop-zero period (wilder_step period m n) ns (rw (h, none_here) (omega arith))
      (omega (arith, k))

loop-positive :
    (period : ℕ) (m : Mean) (ns : List ℕ)
    → 2 ≤ period
    → 0 < m.den
    → 0 < m.num + sum ns
    → 0 < (wilder_loop period m ns).num
loop-positive period m [] p d h = omega (arith, h)
loop-positive period m (n ∷ ns) p d h =
    let factor : 0 < period - 1 = omega (arith, p) in
    let next : 0 < m.num * (period - 1) + n * m.den + sum ns = elim (zero_or_positive m.num) [
      | inr some_before ↦ omega (arith, mul-pos some_before factor)
      | inl none_before ↦ elim (zero_or_positive n) [
        | inr some_here ↦ omega (arith, mul-pos some_here d)
        | inl none_here ↦ omega (arith, h, none_before, none_here)
      ]
    ] in
    loop-positive period (wilder_step period m n) ns p (mul-pos d (omega (arith, p))) next

loop-den :
    (period : ℕ) (m : Mean) (ns : List ℕ)
    → 2 ≤ period
    → 0 < m.den
    → 0 < (wilder_loop period m ns).den
loop-den period m [] p d = d
loop-den period m (n ∷ ns) p d =
    loop-den period (wilder_step period m n) ns p (mul-pos d (omega (arith, p)))

wilder-zero : (period : ℕ) (ns : List ℕ) → sum ns ≡ 0 → (wilder period ns).num ≡ 0
wilder-zero period ns h =
    loop-zero period (mean_of (sum (take period ns)) period) (drop period ns)
      (omega (arith, sum-split period ns, h)) (omega (arith, sum-split period ns, h))

wilder-positive : (period : ℕ) (ns : List ℕ) → 2 ≤ period → 0 < sum ns → 0 < (wilder period ns).num
wilder-positive period ns p h =
    loop-positive period (mean_of (sum (take period ns)) period) (drop period ns) p
      (omega (arith, p)) (omega (arith, sum-split period ns, h))

wilder-den : (period : ℕ) (ns : List ℕ) → 2 ≤ period → 0 < (wilder period ns).den
wilder-den period ns p =
    loop-den period (mean_of (sum (take period ns)) period) (drop period ns) p (omega (arith, p))

-- What the index reads of a series, by the sums of its gains and of its losses: the neutral half
-- without either, 100 without losses, 0 without gains, and otherwise a quotient between the two.
abbrev pub Reads : ℕ → ℕ → Mean → Type 0
Reads gains losses r =
    ((gains ≡ 0) × (losses ≡ 0) × (r ≡ mean_of 100 2))
    ⊎ ((0 < gains) × (losses ≡ 0) × (r ≡ mean_of 100 1))
    ⊎ ((gains ≡ 0) × (0 < losses) × (r.num ≡ 0) × (0 < r.den))
    ⊎ ((0 < gains) × (0 < losses) × (0 < r.num) × (r.num < 100 * r.den))

rsi_of-flat : (gain loss : Mean) → gain.num ≡ 0 → loss.num ≡ 0 → rsi_of gain loss ≡ mean_of 100 2
rsi_of-flat gain loss g l = rw (l, g) refl

rsi_of-up : (gain loss : Mean) → 0 < gain.num → loss.num ≡ 0 → rsi_of gain loss ≡ mean_of 100 1
rsi_of-up gain loss g l = rw (l, lt→ltb 0 gain.num g) refl

rsi_of-down :
    (gain loss : Mean) → 0 < loss.num → rsi_of gain loss ≡ at_most_hundred (strength gain loss)
rsi_of-down gain loss l =
    let some_lost : (loss.num == 0) ≡ false = ground arith in rw some_lost refl

-- The bound of 100 changes nothing.
strength-unchanged : (gain loss : Mean) → at_most_hundred (strength gain loss) ≡ strength gain loss
strength-unchanged gain loss =
    let within : ltb (100 * (strength gain loss).den) (strength gain loss).num ≡ false =
      ground arith in
    rw within refl

strength-zero : (gain loss : Mean) → gain.num ≡ 0 → (strength gain loss).num ≡ 0
strength-zero gain loss g = rw g (omega arith)

strength-between :
    (gain loss : Mean)
    → 0 < gain.num
    → 0 < gain.den
    → 0 < loss.num
    → 0 < loss.den
    → (0 < (strength gain loss).num) × ((strength gain loss).num < 100 * (strength gain loss).den)
strength-between gain loss gn gd ln ld =
    (omega (arith, mul-pos gn ld, mul-pos gd ln), omega (arith, mul-pos gn ld, mul-pos gd ln))

rsi_of-Reads :
    (period : ℕ) (ups downs : List ℕ)
    → 2 ≤ period
    → Reads (sum ups) (sum downs) (rsi_of (wilder period ups) (wilder period downs))
rsi_of-Reads period ups downs p =
    let gain = wilder period ups in
    let loss = wilder period downs in
    let gd = wilder-den period ups p in
    let ld = wilder-den period downs p in
    elim (zero_or_positive (sum downs)) [
      | inl none_down ↦
          let l = wilder-zero period downs none_down in
          elim (zero_or_positive (sum ups)) [
            | inl none_up ↦
                inl (none_up, none_down, rsi_of-flat gain loss (wilder-zero period ups none_up) l)
            | inr some_up ↦ inr (
                inl (
                  some_up,
                  none_down,
                  rsi_of-up gain loss (wilder-positive period ups p some_up) l,
                ))
          ]
      | inr some_down ↦
          let l = wilder-positive period downs p some_down in
          let value = rsi_of-down gain loss l ∙ strength-unchanged gain loss in
          elim (zero_or_positive (sum ups)) [
            | inl none_up ↦ inr (
                inr (
                  inl (
                    none_up,
                    some_down,
                    ap num_of value ∙ strength-zero gain loss (wilder-zero period ups none_up),
                    subst (λ r. 0 < r.den) (sym value) (omega (arith, mul-pos gd l)),
                  )))
            | inr some_up ↦
                let (above, below) =
                  strength-between gain loss (wilder-positive period ups p some_up) gd l ld in
                inr (
                  inr (
                    inr (
                      some_up,
                      some_down,
                      subst (λ r. 0 < r.num) (sym value) above,
                      subst (λ r. r.num < 100 * r.den) (sym value) below,
                    )))
          ]
    ]

enough :
    (count needed : ℕ) (r : Mean) → needed ≤ count → (require_length count needed >> ok r) ≡ ok r
enough count needed r h =
    let not_short : ltb count needed ≡ false = ground arith in rw not_short refl

-- For a period of two or more and enough closes, the index is 100 for a series with gains and no
-- losses, 0 for one with losses and no gains, 50 for a flat one, and strictly between 0 and 100
-- otherwise.
pub relative_strength_index_lem :
    (closes : List ℤ) (period : ℕ)
    → 2 ≤ period
    → period + 1 ≤ length closes
    → (r : Mean) × (relative_strength_index closes period ≡ ok r)
      × Reads (sum (rises closes)) (sum (falls closes)) r
unfolding relative_strength_index
relative_strength_index_lem closes period p h =
    let r = rsi_of (wilder period (rises closes)) (wilder period (falls closes)) in
    (
      r,
      enough (length closes) (period + 1) r h,
      rsi_of-Reads period (rises closes) (falls closes) p,
    )
