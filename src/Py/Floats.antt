-- ===== src/Py/Floats.antt =====
-- Python's floats. Their arithmetic is not in the repository: the type and the operations that the
-- scripts use are a parameter, `Floats`, of the definitions that compute with them.
use vatic_udp.Prelude.{Bool, ℤ, pos, eqb_ℤ, if◌then◌else◌, Result, ok, err, zero_division_error}
use vatic_udp.Py.Text.{Text}

pub record Floats : Type 1 where
  pub Float : Type 0
  -- an integer, or an integral literal such as `1000.0`, as a float
  pub of_int : ℤ → Float
  -- `float(text)`
  pub parse_float : Text → Result Float
  pub sub : Float → Float → Float
  pub mul : Float → Float → Float
  -- the quotient of floats, and the quotient `a / b` of integers, at a divisor other than 0
  pub div : Float → Float → Float
  pub true_div : ℤ → ℤ → Float
  pub is_zero : Float → Bool
  -- `round(x)`
  pub round : Float → ℤ

module _ (fl : Floats) where
  open fl use {Float, div, true_div, is_zero}

  -- `a / b`, which raises at 0
  abbrev pub int_quotient : ℤ → ℤ → Result Float
  int_quotient a b = if eqb_ℤ b (pos 0) then err zero_division_error else ok (true_div a b)

  abbrev pub float_quotient : Float → Float → Result Float
  float_quotient a b = if is_zero b then err zero_division_error else ok (div a b)
