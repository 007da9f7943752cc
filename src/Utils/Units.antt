-- ===== src/Utils/Units.antt =====
-- Which unit `get_bytes_nice` chooses.
use vatic_udp.Prelude.{ℕ, ◌*◌, ◌^◌, ◌≤◌, ◌<◌, ◌≡◌, ◌⊎◌, arith, Bool, true, false}
use vatic_udp.Utils.{SizeUnit, b, kib, mib, gib, tib, kb, mb, gb, tb, Nice, get_bytes_nice}

abbrev pub kilo : Bool → ℕ
kilo true = 1024
kilo false = 1000

-- The exponent of a unit, and its size in bytes, by the unit's name.
abbrev pub exponent : SizeUnit → ℕ
exponent b = 0
exponent kib = 1
exponent mib = 2
exponent gib = 3
exponent tib = 4
exponent kb = 1
exponent mb = 2
exponent gb = 3
exponent tb = 4

abbrev pub unit_size : SizeUnit → ℕ
unit_size b = 1
unit_size kib = 1024
unit_size mib = 1024 ^ 2
unit_size gib = 1024 ^ 3
unit_size tib = 1024 ^ 4
unit_size kb = 1000
unit_size mb = 1000 ^ 2
unit_size gb = 1000 ^ 3
unit_size tb = 1000 ^ 4

-- What is wanted of a size that is shown in a unit: nothing is lost, and the number has the right
-- magnitude. The unit of single bytes is only for what is too large for all others.
abbrev pub IsNice : ℕ → ℕ → Nice → Type 0
IsNice bytes k r =
    (r.dividend ≡ bytes)
    × (r.divisor ≡ unit_size r.size_unit)
    × (((exponent r.size_unit ≡ 0) × (k ^ 5 ≤ bytes))
        ⊎ ((bytes < k * r.divisor) × ((exponent r.size_unit ≡ 1) ⊎ (r.divisor ≤ bytes))))

-- The size is shown as the given number of bytes over the size of the unit that is named with it.
-- The unit is bytes exactly for what is no less than the fifth power of the base. Otherwise the
-- number shown lies below the base, and it is at least 1 unless the unit is the smallest one.
pub get_bytes_nice-IsNice :
    (bytes : ℕ) (kibi : Bool) → IsNice bytes (kilo kibi) (get_bytes_nice bytes kibi)
unfolding get_bytes_nice
get_bytes_nice-IsNice bytes true = ground arith
get_bytes_nice-IsNice bytes false = ground arith
