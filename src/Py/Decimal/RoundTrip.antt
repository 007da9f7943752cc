-- ===== src/Py/Decimal/RoundTrip.antt =====
-- The text that `str` and `'{:02d}'.format` print for a number, and what `int` reads from it.
use mathlib.Core.List.{reverse-reverse}
use vatic_udp.Prelude.{
  ℕ, zero, suc, ◌+◌, ◌-◌, ◌*◌, ◌/◌, ◌%◌, ◌<◌, [], ◌∷◌, reverse, ◌≡◌, ◌≢◌, refl, ◌∙◌, ap, arith,
  Bool, true, false, leb, ◌==◌, Bool-cases, inl, inr, some, pos, ok, Every, Every-reverse,
}
use vatic_udp.Py.Text.{Text, strip, lstrip, is_space}
use vatic_udp.Py.Decimal.{
  is_digit, read_digits, digits, print_nat, print_two, parse_int, signed, unsigned,
}

abbrev pub IsDigits : Text → Type 0
IsDigits = Every (λ c. is_digit c ≡ true)

abbrev digit_of : ℕ → ℕ
digit_of n = b'0' + n % 10

is_digit-digit_of : (n : ℕ) → is_digit (digit_of n) ≡ true
is_digit-digit_of n = ground arith

digits-IsDigits : (f n : ℕ) (out : Text) → IsDigits out → IsDigits (digits f n out)
unfolding digits
digits-IsDigits zero n out h = h
digits-IsDigits (suc f) n out h = elim (Bool-cases (n / 10 == 0)) [
  | inl e ↦ rw e (is_digit-digit_of n, h)
  | inr e ↦ rw e (digits-IsDigits f (n / 10) (digit_of n ∷ out) (is_digit-digit_of n, h))
]

pub print_nat-IsDigits : (n : ℕ) → IsDigits (print_nat n)
unfolding print_nat
print_nat-IsDigits n = digits-IsDigits (suc n) n [] tt

-- One digit is read.
read_digit :
    (after : Bool) (m n : ℕ) (s : Text)
    → read_digits after m (digit_of n ∷ s) ≡ read_digits true (m * 10 + n % 10) s
unfolding read_digits
read_digit after m n s =
    let value : digit_of n - b'0' ≡ n % 10 = omega arith in rw (is_digit-digit_of n, value)

-- The digits of `n` are read as `n`, whatever stands before and behind them.
read_digits-digits :
    (f n : ℕ) (after : Bool) (out : Text)
    → n < f
    → read_digits after 0 (digits f n out) ≡ read_digits true n out
unfolding digits
read_digits-digits zero n after out h = absurd (omega arith)
read_digits-digits (suc f) n after out h = elim (Bool-cases (n / 10 == 0)) [
  | inl e ↦
      let small : 0 * 10 + n % 10 ≡ n = ground arith in
      rw e (read_digit after 0 n out ∙ ap (λ m. read_digits true m out) small)
  | inr e ↦
      let smaller : n / 10 < f = ground arith in
      let whole : n / 10 * 10 + n % 10 ≡ n = omega arith in
      rw e (
        read_digits-digits f (n / 10) after (digit_of n ∷ out) smaller
        ∙ read_digit true (n / 10) n out
        ∙ ap (λ m. read_digits true m out) whole)
]

read_digits-print_nat : (n : ℕ) (after : Bool) → read_digits after 0 (print_nat n) ≡ some n
unfolding print_nat read_digits
read_digits-print_nat n after = read_digits-digits (suc n) n after [] (omega arith)

-- White space around digits.
is_space-digit : (c : ℕ) → is_digit c ≡ true → is_space c ≡ false
is_space-digit c h = ground arith

lstrip-digits : (s : Text) → IsDigits s → lstrip s ≡ s
unfolding lstrip
lstrip-digits [] h = refl
lstrip-digits (c ∷ s) (d, h) = rw (is_space-digit c d)

strip-digits : (s : Text) → IsDigits s → strip s ≡ s
unfolding strip
strip-digits s h =
    rw (lstrip-digits s h, lstrip-digits (reverse s) (Every-reverse _ s h)) (reverse-reverse s)

signed-digits : (s : Text) → IsDigits s → s ≢ [] → signed s ≡ unsigned (read_digits false 0 s)
unfolding signed
signed-digits [] h k = absurd (k refl)
signed-digits (c ∷ s) (d, h) k =
    let minus : (c == b'-') ≡ false = ground arith in
    let plus : (c == b'+') ≡ false = ground arith in rw (minus, plus)

parse_int-digits :
    (s : Text) (n : ℕ)
    → IsDigits s
    → s ≢ []
    → read_digits false 0 s ≡ some n
    → parse_int s ≡ ok (pos n)
unfolding parse_int unsigned
parse_int-digits s n h k r = rw (strip-digits s h, signed-digits s h k, r)

pub print_nat-ne-nil : (n : ℕ) → print_nat n ≢ []
unfolding read_digits
print_nat-ne-nil n h = let empty = rw h at (read_digits-print_nat n false) in cc empty

-- `int(str(n))`
pub parse_int-print_nat : (n : ℕ) → parse_int (print_nat n) ≡ ok (pos n)
parse_int-print_nat n =
    parse_int-digits (print_nat n) n (print_nat-IsDigits n) (print_nat-ne-nil n)
      (read_digits-print_nat n false)

-- `int('{:02d}'.format(n))`
pub parse_int-print_two : (n : ℕ) → parse_int (print_two n) ≡ ok (pos n)
unfolding print_two
parse_int-print_two n = elim (Bool-cases (leb n 9)) [
  | inl e ↦
      rw e (parse_int-digits (b'0' ∷ print_nat n) n (refl, print_nat-IsDigits n) (cc) (read_zero n))
  | inr e ↦ rw e (parse_int-print_nat n)
]
  where
    read_zero : (n : ℕ) → read_digits false 0 (b'0' ∷ print_nat n) ≡ some n
    read_zero n = unfold read_digits in read_digits-print_nat n true

pub print_two-IsDigits : (n : ℕ) → IsDigits (print_two n)
unfolding print_two
print_two-IsDigits n = elim (Bool-cases (leb n 9)) [
  | inl e ↦ rw e (refl, print_nat-IsDigits n)
  | inr e ↦ rw e (print_nat-IsDigits n)
]
