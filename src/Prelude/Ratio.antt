-- ===== src/Prelude/Ratio.antt =====
-- Splits by percentages: what floors of fractions add up to.
use ore_pool.Prelude.{ℕ, ◌+◌, ◌*◌, ◌/◌, ◌≤◌, ◌≡◌, ap, arith}

-- A hundred parts of an amount, split three ways.
pub percent_split : (x p q r : ℕ) → p + q + r ≡ 100 → x * p / 100 + x * q / 100 + x * r / 100 ≤ x
percent_split x p q r h = omega (arith, ap (λ (t : ℕ). x * t) h)

pub percent_split₂ : (x p q : ℕ) → p + q ≡ 100 → x * p / 100 + x * q / 100 ≤ x
percent_split₂ x p q h = omega (arith, ap (λ (t : ℕ). x * t) h)
