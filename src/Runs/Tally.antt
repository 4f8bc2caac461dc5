-- ===== src/Runs/Tally.antt =====
-- The numbers of `_round_trip_metrics` (src/workers/run_job.py) counted in one pass.
use mqs_backtest_visualizer.Prelude.{
  ℕ, zero, suc, ◌+◌, ◌≡◌, refl, ◌⊎◌, Bool, true, false, Option, none, some, List, [], ◌∷◌, arith,
  if◌then◌else◌, length, Option-cases, inl, inr, subst, sym,
}
use mqs_backtest_visualizer.Prelude.Int.{ℤ, pos, negsuc, ltb_ℤ, int_laws, parts_eq}
use mqs_backtest_visualizer.Prelude.Ratio.{Ratio}
use mqs_backtest_visualizer.Pairing.Match.{TradeRow}
use mqs_backtest_visualizer.Runs.Metrics.{
  has_exit, keep_trades, is_win, is_loss, gross_profit, gross_loss, metrics_of, round_trip_metrics,
  open_lots,
}

metrics_of-total : (closed : List TradeRow) → (metrics_of closed).total_trades ≡ length closed
metrics_of-total [] = refl
metrics_of-total (trade ∷ trades) = refl

-- A reading of the same trades in one pass, row by row.
pub record Tally : Type 0 where
  pub wins : ℕ
  pub losses : ℕ
  pub evens : ℕ
  pub opens : ℕ
  pub gains : ℕ
  pub costs : ℕ

abbrev pub count_row : Option ℤ → ℤ → Tally → Tally
count_row none pnl t = record t { opens = suc t.opens }
count_row (some day) (pos zero) t = record t { evens = suc t.evens }
count_row (some day) (pos (suc n)) t = record t { wins = suc t.wins; gains = suc n + t.gains }
count_row (some day) (negsuc n) t = record t { losses = suc t.losses; costs = suc n + t.costs }

abbrev pub tally : List TradeRow → Tally
tally [] = record { wins = 0; losses = 0; evens = 0; opens = 0; gains = 0; costs = 0 }
tally (trade ∷ trades) = count_row trade.row.exit_date trade.row.pnl (tally trades)

-- a ratio, where there is something to divide by
abbrev pub ratio_of : ℕ → ℕ → Option Ratio
ratio_of n zero = none
ratio_of n (suc d) = some (record { num = pos n; den = pos (suc d) })

pnl_cases : (a : ℤ) → (a ≡ pos 0) ⊎ ((n : ℕ) × (a ≡ pos (suc n))) ⊎ ((n : ℕ) × (a ≡ negsuc n))
pnl_cases (pos zero) = inl refl
pnl_cases (pos (suc n)) = inr (inl (n, refl))
pnl_cases (negsuc n) = inr (inr (n, refl))

-- What the filters count and sum in the trades that are closed is what the tally says.
abbrev Agrees : List TradeRow → List TradeRow → Tally → Type 0
Agrees trades closed t =
    (gross_profit closed ≡ pos t.gains)
    × (gross_loss closed ≡ pos t.costs)
    × (length (keep_trades is_win closed) ≡ t.wins)
    × (length closed ≡ t.wins + t.losses + t.evens)
    × (length trades ≡ length closed + t.opens)

module _ (trade : TradeRow) (trades closed : List TradeRow) (t : Tally)
    (h : Agrees trades closed t) where
  Agrees-open : Agrees (trade ∷ trades) closed (record t { opens = suc t.opens })
  Agrees-open =
      let (gains, costs, wins, all, rows) = h in (gains, costs, wins, all, omega (arith, rows))

  Agrees-even :
      trade.row.pnl ≡ pos 0
      → Agrees (trade ∷ trades) (trade ∷ closed) (record t { evens = suc t.evens })
  unfolding gross_profit gross_loss
  Agrees-even z =
      let (gains, costs, wins, all, rows) = h in
      let w : is_win trade ≡ false = rw z refl in
      let l : is_loss trade ≡ false = rw z refl in
      (
        rw (w, gross_profit) (omega (int_laws, parts_eq gains)),
        rw (l, gross_loss) (omega (int_laws, parts_eq costs)),
        rw w wins,
        omega (arith, all),
        omega (arith, rows),
      )

  Agrees-win :
      (n : ℕ)
      → trade.row.pnl ≡ pos (suc n)
      → Agrees
          (trade ∷ trades)
          (trade ∷ closed)
          (record t { wins = suc t.wins; gains = suc n + t.gains })
  unfolding gross_profit gross_loss
  Agrees-win n z =
      let (gains, costs, wins, all, rows) = h in
      let w : is_win trade ≡ true = rw z (ground arith) in
      let l : is_loss trade ≡ false = rw z (ground arith) in
      (
        rw (w, gross_profit) (omega (int_laws, parts_eq gains, parts_eq z)),
        rw (l, gross_loss) (omega (int_laws, parts_eq costs)),
        rw w (omega (arith, wins)),
        omega (arith, all),
        omega (arith, rows),
      )

  Agrees-loss :
      (n : ℕ)
      → trade.row.pnl ≡ negsuc n
      → Agrees
          (trade ∷ trades)
          (trade ∷ closed)
          (record t { losses = suc t.losses; costs = suc n + t.costs })
  unfolding gross_profit gross_loss
  Agrees-loss n z =
      let (gains, costs, wins, all, rows) = h in
      let w : is_win trade ≡ false = rw z (ground arith) in
      let l : is_loss trade ≡ true = rw z (ground arith) in
      (
        rw (w, gross_profit) (omega (int_laws, parts_eq gains)),
        rw (l, gross_loss) (omega (int_laws, parts_eq costs, parts_eq z)),
        rw w wins,
        omega (arith, all),
        omega (arith, rows),
      )

kept :
    (trade : TradeRow) (trades : List TradeRow) (b : Bool)
    → has_exit trade ≡ b
    → keep_trades has_exit (trade ∷ trades)
      ≡ (if b then trade ∷ keep_trades has_exit trades else keep_trades has_exit trades)
kept trade trades b e = rw e refl

Agrees-by :
    (trade : TradeRow) (trades closed : List TradeRow) (t : Tally)
    → keep_trades has_exit (trade ∷ trades) ≡ closed
    → tally (trade ∷ trades) ≡ t
    → Agrees (trade ∷ trades) closed t
    → Agrees (trade ∷ trades) (keep_trades has_exit (trade ∷ trades)) (tally (trade ∷ trades))
Agrees-by trade trades closed t k c h =
    subst (λ x. Agrees (trade ∷ trades) x (tally (trade ∷ trades))) (sym k)
      (subst (λ x. Agrees (trade ∷ trades) closed x) (sym c) h)

tally-Agrees : (trades : List TradeRow) → Agrees trades (keep_trades has_exit trades) (tally trades)
unfolding gross_profit gross_loss
tally-Agrees [] = (refl, omega int_laws, refl, refl, refl)
tally-Agrees (trade ∷ trades) =
    let closed = keep_trades has_exit trades in
    let t = tally trades in
    let h = tally-Agrees trades in
    elim (Option-cases trade.row.exit_date) [
      | inl e ↦
          Agrees-by trade trades closed _ (kept trade trades false (rw e refl)) (rw e refl)
            (Agrees-open trade trades closed t h)
      | inr (day, e) ↦
          let k = kept trade trades true (rw e refl) in
          elim (pnl_cases trade.row.pnl) [
            | inl z ↦
                Agrees-by trade trades (trade ∷ closed) _ k (rw (e, z) refl)
                  (Agrees-even trade trades closed t h z)
            | inr (inl (n, z)) ↦
                Agrees-by trade trades (trade ∷ closed) _ k (rw (e, z) refl)
                  (Agrees-win trade trades closed t h n z)
            | inr (inr (n, z)) ↦
                Agrees-by trade trades (trade ∷ closed) _ k (rw (e, z) refl)
                  (Agrees-loss trade trades closed t h n z)
          ]
    ]

metrics_of-ratios :
    (closed : List TradeRow) (g c w n : ℕ)
    → gross_profit closed ≡ pos g
    → gross_loss closed ≡ pos c
    → length (keep_trades is_win closed) ≡ w
    → length closed ≡ n
    → ((metrics_of closed).win_rate ≡ ratio_of w n)
      × ((metrics_of closed).profit_factor ≡ ratio_of g c)
unfolding gross_loss
metrics_of-ratios [] g c w zero hg hc hw hn =
    let none_lost : c ≡ 0 = omega (int_laws, parts_eq hc) in (refl, rw none_lost refl)
metrics_of-ratios [] g c w (suc n) hg hc hw hn = absurd (omega (arith, hn))
metrics_of-ratios (t ∷ ts) g c w zero hg hc hw hn = absurd (omega (arith, hn))
metrics_of-ratios (t ∷ ts) g zero w (suc n) hg hc hw hn =
    (rw (hw, hn) refl, rw (metrics_of, hc) refl)
metrics_of-ratios (t ∷ ts) g (suc c) w (suc n) hg hc hw hn =
    let lost : ltb_ℤ (pos 0) (gross_loss (t ∷ ts)) ≡ true = rw hc (ground arith) in
    (rw (hw, hn) refl, rw (metrics_of, lost, hc, hg) refl)

-- The metrics are those of a count in one pass over the rows, in which a row without an exit is an
-- open lot, and one with an exit wins, loses or ends even by its profit: the trades are the wins,
-- losses and evens, the open lots the rest; the win rate is the wins to the trades, none without a
-- trade; the profit factor is the gains to the losses, none without a loss.
pub round_trip_metrics_lem :
    (trades : List TradeRow)
    → let t = tally trades in
      let n = t.wins + t.losses + t.evens in
      ((round_trip_metrics trades).total_trades ≡ n)
      × (open_lots trades ≡ t.opens)
      × ((round_trip_metrics trades).win_rate ≡ ratio_of t.wins n)
      × ((round_trip_metrics trades).profit_factor ≡ ratio_of t.gains t.costs)
unfolding round_trip_metrics open_lots
round_trip_metrics_lem trades =
    let closed = keep_trades has_exit trades in
    let t = tally trades in
    let (gains, costs, wins, all, rows) = tally-Agrees trades in
    let total = metrics_of-total closed in
    let (rate, factor) =
      metrics_of-ratios closed t.gains t.costs t.wins (t.wins + t.losses + t.evens) gains costs wins
        all in
    (omega (arith, total, all), omega (arith, total, rows), rate, factor)
