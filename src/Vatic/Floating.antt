-- ===== src/Vatic/Floating.antt =====
-- C++'s `double` as Vatic.cpp uses it. Its arithmetic is not in the repository: the type and the
-- operations are a parameter, and `Lawful` is what the window relies on.
use vatic_udp.Prelude.{ℕ, ◌≤◌, ◌<◌, Bool}

pub record Doubles : Type 1 where
  pub Double : Type 0
  -- a 32-bit number as a double
  pub of_u32 : ℕ → Double
  -- `std::exp(rttms)` and `std::tanh(rttms)`, assigned to a 32-bit number
  pub exp_u32 : ℕ → ℕ
  pub tanh_u32 : ℕ → ℕ
  -- `0.5`
  pub half : Double
  -- `1.1 * x` and `0.9 * x`
  pub tenth_more : Double → Double
  pub tenth_less : Double → Double
  -- `std::abs(a - b)`
  pub dist : Double → Double → Double
  pub add : Double → Double → Double
  -- `sum / count`
  pub over : Double → ℕ → Double
  -- `double(part) / all`
  pub ratio : ℕ → ℕ → Double
  -- `a < b` and `a <= b`
  pub lt : Double → Double → Bool
  pub le : Double → Double → Bool
  -- `size *= (1 - alpha / 2)`, back in 32 bits
  pub shrink : Double → ℕ → ℕ

-- Between 0 and 1 lie one half and every ratio of a part to the whole, and a window that is shrunk by
-- such a number does not grow.
pub record Lawful (fl : Doubles) : Type 1 where
  pub IsUnit : fl.Double → Type 0
  pub half-IsUnit : IsUnit fl.half
  pub ratio-IsUnit : (part all : ℕ) → part ≤ all → 0 < all → IsUnit (fl.ratio part all)
  pub shrink-le : (a : fl.Double) (n : ℕ) → IsUnit a → fl.shrink a n ≤ n
