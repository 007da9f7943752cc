-- ===== src/Utils/Arguments.antt =====
-- What the argument types of utils.py accept.
use vatic_udp.Prelude.{◌≡◌, ◌↔◌, arith, Bool, true, ℤ, pos, ◌≤ℤ◌, ok}
use vatic_udp.Py.Text.{Text}
use vatic_udp.Py.Decimal.{parse_int}
use vatic_udp.Py.Floats.{Floats}
use vatic_udp.Utils.{unsigned_int, positive_int, frac_type}

-- `unsigned_int` accepts exactly the texts of integers that are not negative, and `positive_int`
-- exactly those of positive integers; both return that integer.
pub argument_types-ok_iff :
    (arg : Text) (n : ℤ)
    → ((unsigned_int arg ≡ ok n) ↔ ((parse_int arg ≡ ok n) × (pos 0 ≤ℤ n)))
      × ((positive_int arg ≡ ok n) ↔ ((parse_int arg ≡ ok n) × (pos 1 ≤ℤ n)))
unfolding unsigned_int positive_int
argument_types-ok_iff arg n = ground arith

-- `frac_type` accepts exactly the texts of floats between 0 and 1, and returns that float.
pub frac_type-ok_iff :
    (fl : Floats) (less : fl.Float → fl.Float → Bool) (arg : Text) (x : fl.Float)
    → (frac_type fl less arg ≡ ok x) ↔ (
        (fl.parse_float arg ≡ ok x)
        × (less (fl.of_int (pos 0)) x ≡ true)
        × (less x (fl.of_int (pos 1)) ≡ true))
unfolding frac_type
frac_type-ok_iff fl less arg x = ground arith
