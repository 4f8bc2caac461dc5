-- ===== src/Prelude/Ratio.antt =====
-- A quotient of two integers as it is written, not reduced: what `/` on floats stands for.
use mqs_backtest_visualizer.Prelude.{◌≡◌}
use mqs_backtest_visualizer.Prelude.Int.{ℤ, pos, ◌+ℤ◌, ◌*ℤ◌}

pub record Ratio : Type 0 where
  pub num : ℤ
  pub den : ℤ

abbrev pub whole : ℤ → Ratio
whole a = record { num = a; den = pos 1 }

infixl 65 ◌+ᵣ◌
unfoldable pub ◌+ᵣ◌ : Ratio → Ratio → Ratio
a +ᵣ b = record { num = a.num *ℤ b.den +ℤ b.num *ℤ a.den; den = a.den *ℤ b.den }

unfoldable pub scale : ℤ → Ratio → Ratio
scale k a = record { num = k *ℤ a.num; den = a.den }

-- Two quotients stand for one number.
abbrev pub Same : Ratio → Ratio → Type 0
Same a b = a.num *ℤ b.den ≡ b.num *ℤ a.den
