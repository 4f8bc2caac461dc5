-- ===== src/Pairing/Shares.antt =====
-- The shares of lots and of round trips, in the order of the lots (src/services/trade_pairing.py).
use mqs_backtest_visualizer.Prelude.{
  ℕ, zero, suc, ◌+◌, ◌-◌, ◌≤◌, ◌≡◌, refl, sym, ap, ◌∙◌, List, [], ◌∷◌, ◌++◌, arith, length,
}
use mqs_backtest_visualizer.Prelude.Text.{take, drop}
use mqs_backtest_visualizer.Prelude.Int.{ℤ}
use mqs_backtest_visualizer.Pairing.Fill.{Direction}
use mqs_backtest_visualizer.Pairing.Match.{Lot, Row}

-- a share: its side, the price it was opened at, and the day
abbrev pub Share : Type 0
Share = Direction × ℤ × ℤ

abbrev pub times : ℕ → Share → List Share
times zero s = []
times (suc n) s = s ∷ times n s

-- The shares of open lots, and of round trips, in order.
abbrev pub shares_of : List Lot → List Share
shares_of [] = []
shares_of (lot ∷ lots) = times lot.quantity (lot.direction, lot.price, lot.day_of) ++ shares_of lots

abbrev pub closed_shares : List Row → List Share
closed_shares [] = []
closed_shares (row ∷ rows) =
    times row.quantity (row.side, row.entry_price, row.entry_date) ++ closed_shares rows

pub take-times :
    (n q : ℕ) (s : Share) (xs : List Share) → n ≤ q → take n (times q s ++ xs) ≡ times n s
take-times zero q s xs h = refl
take-times (suc n) zero s xs h = absurd (omega (arith, h))
take-times (suc n) (suc q) s xs h = rw (take-times n q s xs (omega (arith, h))) refl

pub drop-times :
    (n q : ℕ) (s : Share) (xs : List Share)
    → n ≤ q
    → drop n (times q s ++ xs) ≡ times (q - n) s ++ xs
drop-times zero q s xs h = let e : q - 0 ≡ q = omega arith in rw e refl
drop-times (suc n) zero s xs h = absurd (omega (arith, h))
drop-times (suc n) (suc q) s xs h =
    let e : suc q - suc n ≡ q - n = omega arith in rw e (drop-times n q s xs (omega (arith, h)))

pub take-past :
    (n q : ℕ) (s : Share) (xs : List Share)
    → take (q + n) (times q s ++ xs) ≡ times q s ++ take n xs
take-past n zero s xs = let e : 0 + n ≡ n = omega arith in rw e refl
take-past n (suc q) s xs =
    let e : suc q + n ≡ suc (q + n) = omega arith in rw (e, take-past n q s xs) refl

pub drop-past : (n q : ℕ) (s : Share) (xs : List Share) → drop (q + n) (times q s ++ xs) ≡ drop n xs
drop-past n zero s xs = let e : 0 + n ≡ n = omega arith in rw e refl
drop-past n (suc q) s xs =
    let e : suc q + n ≡ suc (q + n) = omega arith in rw e (drop-past n q s xs)

pub length-times : (q : ℕ) (s : Share) (xs : List Share) → length (times q s ++ xs) ≡ q + length xs
length-times zero s xs = omega arith
length-times (suc q) s xs = omega (arith, length-times q s xs)

pub append_assoc : (xs ys zs : List Share) → (xs ++ ys) ++ zs ≡ xs ++ (ys ++ zs)
append_assoc [] ys zs = refl
append_assoc (x ∷ xs) ys zs = rw (append_assoc xs ys zs) refl

pub append_nil : (xs : List Share) → xs ++ [] ≡ xs
append_nil [] = refl
append_nil (x ∷ xs) = rw (append_nil xs) refl

pub shares_of-append :
    (front back : List Lot) → shares_of (front ++ back) ≡ shares_of front ++ shares_of back
shares_of-append [] back = refl
shares_of-append (lot ∷ front) back =
    let s : Share = (lot.direction, lot.price, lot.day_of) in
    ap (λ l. times lot.quantity s ++ l) (shares_of-append front back)
    ∙ sym (append_assoc (times lot.quantity s) (shares_of front) (shares_of back))
