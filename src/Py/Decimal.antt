-- ===== src/Py/Decimal.antt =====
-- `int(text)` and `str(int)`, in decimal.
pub mod RoundTrip
use vatic_udp.Prelude.{
  ℕ, zero, suc, ◌+◌, ◌-◌, ◌*◌, ◌/◌, ◌%◌, [], ◌∷◌, Bool, true, false, ◌&&◌, ◌||◌, leb, ◌==◌,
  if◌then◌else◌, Option, none, some, ◌≡◌, refl, ℤ, pos, negsuc, sub_ℕ, Result, ok, err, value_error,
  arith, ◌<◌, Bool-cases, inl, inr,
}
use vatic_udp.Py.Text.{Text, codes, strip}

abbrev pub is_digit : ℕ → Bool
is_digit c = leb b'0' c && leb c b'9'

-- The digits from here on, with single underscores between digits. The flag says that a digit
-- stands before; the text must end behind one.
unfoldable pub read_digits : Bool → ℕ → Text → Option ℕ
read_digits true n [] = some n
read_digits false n [] = none
read_digits after n (c ∷ s) =
    if is_digit c || (after && c == b'_')
    then read_digits (is_digit c) (if is_digit c then n * 10 + (c - b'0') else n) s
    else none

negated : Option ℕ → Result ℤ
negated none = err value_error
negated (some n) = ok (sub_ℕ 0 n)

unfoldable pub unsigned : Option ℕ → Result ℤ
unsigned none = err value_error
unsigned (some n) = ok (pos n)

unfoldable pub signed : Text → Result ℤ
unfolding read_digits negated unsigned
signed [] = err value_error
signed (c ∷ s) =
    if c == b'-'
    then negated (read_digits false 0 s)
    else if c == b'+'
    then unsigned (read_digits false 0 s)
    else unsigned (read_digits false 0 (c ∷ s))

-- `int(s)`
unfoldable pub parse_int : Text → Result ℤ
unfolding signed strip
parse_int s = signed (strip s)

-- The digits of `n` in front of `out`; each round takes the last one, and `n + 1` rounds are enough.
unfoldable pub digits : ℕ → ℕ → Text → Text
digits zero n out = out
digits (suc fuel) n out =
    let shorter = (b'0' + n % 10) ∷ out in
    let more = digits fuel (n / 10) shorter in if n / 10 == 0 then shorter else more

-- Any number of rounds above `n` prints the same text, and that many are enough.
pub digits-fuel : (f g n : ℕ) (out : Text) → n < f → n < g → digits f n out ≡ digits g n out
unfolding digits
digits-fuel zero g n out h k = absurd (omega arith)
digits-fuel (suc f) zero n out h k = absurd (omega arith)
digits-fuel (suc f) (suc g) n out h k = elim (Bool-cases (n / 10 == 0)) [
  | inl e ↦ rw e
  | inr e ↦
      let smaller : n / 10 < n = ground arith in
      rw (e, digits-fuel f g (n / 10) ((b'0' + n % 10) ∷ out) (omega arith) (omega arith))
]

-- `str(n)`
unfoldable pub print_nat : ℕ → Text
unfolding digits
print_nat n = digits (suc n) n []

unfoldable pub print_int : ℤ → Text
unfolding print_nat
print_int (pos n) = print_nat n
print_int (negsuc n) = b'-' ∷ print_nat (suc n)

-- `'{:02d}'.format(n)`
unfoldable pub print_two : ℕ → Text
unfolding print_nat
print_two n = if leb n 9 then b'0' ∷ print_nat n else print_nat n

parse_samples :
    (parse_int (codes " 1_000\n") ≡ ok (pos 1000))
    × (parse_int (codes "-12") ≡ ok (negsuc 11))
    × (parse_int (codes "1__0") ≡ err value_error)
    × (parse_int (codes "7_") ≡ err value_error)
    × (parse_int (codes "7.5") ≡ err value_error)
unfolding parse_int codes
parse_samples = (refl, refl, refl, refl, refl)

print_samples : (print_nat 1500 ≡ codes "1500") × (print_two 5 ≡ codes "05")
unfolding print_two codes
print_samples = (refl, refl)
