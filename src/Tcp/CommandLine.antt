-- ===== src/Tcp/CommandLine.antt =====
-- Options of sender_receiver/sender.cc as they stand on a command line, and `getopt` on them.
use vatic_udp.Prelude.{
  ℕ, suc, ◌≡◌, ◌≢◌, refl, sym, ap, ◌∙◌, inl, inr, arith, List, [], ◌∷◌, ◌++◌, Bool, true, false,
  ◌||◌, ℤ, pos, negsuc, Every, Every-append, Every-mono, Bool-cases,
}
use vatic_udp.Py.Text.{Text, codes, is_space, starts_with}
use vatic_udp.Py.Text.Words.{spaced, spaced-append, Word}
use vatic_udp.Py.Format.Fields.{is_brace, NoBrace}
use vatic_udp.Py.Decimal.{is_digit, print_nat, print_int}
use vatic_udp.Py.Decimal.RoundTrip.{IsDigits, print_nat-IsDigits, print_nat-ne-nil}
use vatic_udp.Tcp.Options.{Opt, takes_argument, IsGetopt}

-- `argv` behind the program's name
abbrev pub arguments : List Text → List Text
arguments [] = []
arguments (program ∷ args) = args

abbrev pub any_char : (ℕ → Bool) → Text → Bool
any_char p [] = false
any_char p (c ∷ t) = p c || any_char p t

-- What no character of a text is, by evaluation
pub Every-of_none : (p : ℕ → Bool) (t : Text) → any_char p t ≡ false → Every (λ c. p c ≡ false) t
Every-of_none p [] h = tt
Every-of_none p (c ∷ t) h = elim (Bool-cases (p c)) [
  | inl e ↦ cc (rw e at h)
  | inr e ↦ (e, Every-of_none p t (rw e at h))
]

-- A text that is one word and goes through `format` as it is.
pub record Plain (t : Text) : Type 0 where
  pub word : Word t
  pub no_brace : NoBrace t

digit-no_space : (c : ℕ) → is_digit c ≡ true → is_space c ≡ false
digit-no_space c h = ground arith

digit-no_brace : (c : ℕ) → is_digit c ≡ true → is_brace c ≡ false
digit-no_brace c h = ground arith

pub print_nat-Plain : (n : ℕ) → Plain (print_nat n)
print_nat-Plain n = record {
  word = record {
    not_nil = print_nat-ne-nil n;
    no_space = Every-mono _ _ digit-no_space (print_nat n) (print_nat-IsDigits n);
  };
  no_brace = Every-mono _ _ digit-no_brace (print_nat n) (print_nat-IsDigits n);
}

pub print_int-Plain : (n : ℤ) → Plain (print_int n)
unfolding print_int
print_int-Plain (pos n) = print_nat-Plain n
print_int-Plain (negsuc n) = record {
  word = record { not_nil = λ e. cc e; no_space = (refl, (print_nat-Plain (suc n)).word.no_space) };
  no_brace = (refl, (print_nat-Plain (suc n)).no_brace);
}

digit-no_dash : (t : Text) → t ≢ [] → IsDigits t → starts_with t (codes "-") ≡ false
unfolding starts_with codes
digit-no_dash [] h k = absurd (h refl)
digit-no_dash (c ∷ t) h (k, ks) = ground arith

-- A number that is not negative does not look like an option.
pub print_nat-starts : (n : ℕ) → starts_with (print_nat n) (codes "-") ≡ false
print_nat-starts n = digit-no_dash (print_nat n) (print_nat-ne-nil n) (print_nat-IsDigits n)

-- The options as they stand on a command line.
abbrev pub flags : List Opt → List Text
flags [] = []
flags ((c, arg) ∷ os) = (b'-' ∷ c ∷ []) ∷ arg ∷ flags os

flags-append : (os ps : List Opt) → flags (os ++ ps) ≡ flags os ++ flags ps
flags-append [] ps = refl
flags-append ((c, arg) ∷ os) ps = ap (λ r. (b'-' ∷ c ∷ []) ∷ arg ∷ r) (flags-append os ps)

pub spaced-flags-append :
    (os ps : List Opt) → spaced (flags os) ++ spaced (flags ps) ≡ spaced (flags (os ++ ps))
spaced-flags-append os ps =
    sym (ap spaced (flags-append os ps) ∙ spaced-append (flags os) (flags ps))

-- An option that the sender knows, with one plain word.
pub record Known (o : Opt) : Type 0 where
  pub letter : takes_argument o.0 ≡ true
  pub plain : Plain o.1

-- A letter is neither white space nor a brace.
takes_argument-plain :
    (c : ℕ) → takes_argument c ≡ true → (is_space c ≡ false) × (is_brace c ≡ false)
takes_argument-plain c h = ground arith

pub flags-Word : (os : List Opt) → Every Known os → Every Word (flags os)
flags-Word [] h = tt
flags-Word ((c, arg) ∷ os) (k, h) = (
  record { not_nil = λ e. cc e; no_space = (refl, ((takes_argument-plain c k.letter).0, tt)) },
  (k.plain.word, flags-Word os h),
)

pub spaced-flags-NoBrace : (os : List Opt) → Every Known os → NoBrace (spaced (flags os))
spaced-flags-NoBrace [] h = tt
spaced-flags-NoBrace ((c, arg) ∷ os) (k, h) = (
  refl,
  (
    refl,
    (
      (takes_argument-plain c k.letter).1,
      (
        refl,
        Every-append (λ c. is_brace c ≡ false) arg (spaced (flags os)) k.plain.no_brace
            (spaced-flags-NoBrace os h),
      ),
    ),
  ),
)

-- `getopt` finds the options again.
pub getopt-flags :
    (getopt : List Text → List Opt × List Text)
    → IsGetopt getopt
    → (os : List Opt) → Every Known os
    → getopt (flags os) ≡ (os, [])
getopt-flags getopt g [] h = g.at_end
getopt-flags getopt g ((c, arg) ∷ os) (k, h) =
    rw (getopt-flags getopt g os h) at (g.option c arg (flags os) k.letter)
