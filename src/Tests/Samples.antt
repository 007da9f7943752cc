-- ===== src/Tests/Samples.antt =====
-- Concrete inputs for the theorems: logs, traces and simulations, and floats that are quotients.
use vatic_udp.Prelude.{
  ◌+◌, ◌/◌, List, [], ◌∷◌, ◌==◌, ℤ, pos, pos_part, neg_part, ◌*ℤ◌, ◌-ℤ◌, ok, err,
}
use vatic_udp.Py.Text.{Text, codes}
use vatic_udp.Py.Decimal.{parse_int}
use vatic_udp.Py.Floats.{Floats}

-- A float is held as a dividend and a divisor; the samples divide by positive numbers only.
abbrev pub Fraction : Type 0
Fraction = ℤ × ℤ

abbrev pub fraction_floats : Floats
fraction_floats = record {
  Float = Fraction;
  of_int = λ n. (n, pos 1);
  parse_float = λ t. elim (parse_int t) [ ok n ↦ ok (n, pos 1) | err e ↦ err e ];
  sub = λ x y. (x.0 *ℤ y.1 -ℤ y.0 *ℤ x.1, x.1 *ℤ y.1);
  mul = λ x y. (x.0 *ℤ y.0, x.1 *ℤ y.1);
  div = λ x y. (x.0 *ℤ y.1, x.1 *ℤ y.0);
  true_div = λ a b. (a, b);
  is_zero = λ x. pos_part x.0 + neg_part x.0 == 0;
  round = λ x. pos (pos_part x.0 / pos_part x.1);
}

abbrev pub trace_lines : List Text
trace_lines = codes "10\n" ∷ codes "900\n" ∷ codes "1001\n" ∷ codes "1500\n" ∷ codes "2500\n" ∷ []

-- Two capacity events and one arrival in bin 0, a jump to bin 2, and a departure there.
abbrev pub log_lines : List Text
log_lines =
    codes "# init timestamp: 1000000\n"
    ∷ codes "# base timestamp: 100\n"
    ∷ codes "# queue: infinite\n"
    ∷ codes "100 # 1500\n"
    ∷ codes "150 + 1400~0\n"
    ∷ codes "199 # 1500\n"
    ∷ codes "320 - 1400 170\n"
    ∷ []
