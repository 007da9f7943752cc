-- ===== src/Utils.antt =====
-- utils.py: sizes with a unit, and the types of command-line arguments.
pub mod Units
pub mod Arguments
use vatic_udp.Prelude.{
  ℕ, ◌+◌, ◌*◌, ◌^◌, ltb, Bool, true, false, if◌then◌else◌, ℤ, pos, ltb_ℤ, Result, ok, err, ◌>>=◌,
  type_error, argument_type_error, ◌&&◌, ◌≡◌, refl,
}
use vatic_udp.Py.Text.{Text, codes}
use vatic_udp.Py.Decimal.{parse_int}
use vatic_udp.Py.Floats.{Floats}

-- The units that `get_bytes_nice` names.
pub data SizeUnit : Type 0 where
  b kib mib gib tib kb mb gb tb : SizeUnit

-- A size in a unit: the quotient of two integers, not yet rounded to a float.
pub record Nice : Type 0 where
  pub dividend : ℕ
  pub divisor : ℕ
  pub size_unit : SizeUnit

abbrev pub quotient : ℕ → ℕ → SizeUnit → Nice
quotient n d u = record { dividend = n; divisor = d; size_unit = u }

-- `kilo << k`
abbrev pub shift : ℕ → ℕ → ℕ
shift n k = n * 2 ^ k

unfoldable pub get_bytes_nice : ℕ → Bool → Nice
get_bytes_nice bytes true =
    if ltb bytes (shift 1024 10)
    then quotient bytes 1024 kib
    else if ltb bytes (shift 1024 20)
    then quotient bytes (shift 1024 10) mib
    else if ltb bytes (shift 1024 30)
    then quotient bytes (shift 1024 20) gib
    else if ltb bytes (shift 1024 40)
    then quotient bytes (shift 1024 30) tib
    else quotient bytes 1 b
get_bytes_nice bytes false =
    if ltb bytes (1000 ^ 2)
    then quotient bytes 1000 kb
    else if ltb bytes (1000 ^ 3)
    then quotient bytes (1000 ^ 2) mb
    else if ltb bytes (1000 ^ 4)
    then quotient bytes (1000 ^ 3) gb
    else if ltb bytes (1000 ^ 5)
    then quotient bytes (1000 ^ 4) tb
    else quotient bytes 1 b

-- The call `argparse.ArgumentError(message)` lacks an argument, so it raises a `TypeError`.
unfoldable pub unsigned_int : Text → Result ℤ
unsigned_int arg = do n ← parse_int arg; if ltb_ℤ n (pos 0) then err type_error else ok n

unfoldable pub positive_int : Text → Result ℤ
positive_int arg = do n ← parse_int arg; if ltb_ℤ (pos 0) n then ok n else err type_error

-- `frac_type`; `less` is `<` on floats.
unfoldable pub frac_type : (fl : Floats) → (fl.Float → fl.Float → Bool) → Text → Result fl.Float
frac_type fl less arg = do
  val ← fl.parse_float arg
  if less (fl.of_int (pos 0)) val && less val (fl.of_int (pos 1))
      then ok val
      else err argument_type_error
