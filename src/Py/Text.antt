-- ===== src/Py/Text.antt =====
-- Python's `str` as the list of its code points, with the methods that the scripts call. White
-- space, digits and word characters are those of ASCII.
pub mod Cuts
pub mod Words
use Prim.Native.Char.{code}
use Prim.Native.String.{String}
use vatic_udp.Prelude.{
  ℕ, zero, suc, length, ◌-◌, ◌++◌, List, [], ◌∷◌, reverse, Bool, true, false, ◌&&◌, ◌||◌, leb, ◌==◌,
  if◌then◌else◌, ◌≡◌, refl, ◌↔◌, arith,
}

abbrev pub Text : Type 0
Text = List ℕ

-- The text of a literal.
unfoldable pub codes : String → Text
codes String.[] = []
codes (String.◌∷◌ c s) = code c ∷ codes s

-- `s == t`
unfoldable pub text_eq : Text → Text → Bool
text_eq [] [] = true
text_eq [] (d ∷ t) = false
text_eq (c ∷ s) [] = false
text_eq (c ∷ s) (d ∷ t) = c == d && text_eq s t

-- `s.startswith(p)`
unfoldable pub starts_with : Text → Text → Bool
starts_with s [] = true
starts_with [] (d ∷ p) = false
starts_with (c ∷ s) (d ∷ p) = c == d && starts_with s p

-- `p in s`
unfoldable pub contains : Text → Text → Bool
unfolding starts_with
contains [] p = starts_with [] p
contains (c ∷ s) p = starts_with (c ∷ s) p || contains s p

abbrev pub is_space : ℕ → Bool
is_space c = (leb 9 c && leb c 13) || (leb 28 c && leb c 32)

unfoldable pub lstrip : Text → Text
lstrip [] = []
lstrip (c ∷ s) = if is_space c then lstrip s else c ∷ s

-- `s.strip()`
unfoldable pub strip : Text → Text
unfolding lstrip
strip s = reverse (lstrip (reverse (lstrip s)))

-- The character goes to the front of the first part.
abbrev pub prepend : ℕ → List Text → List Text
prepend c [] = (c ∷ []) ∷ []
prepend c (w ∷ ws) = (c ∷ w) ∷ ws

-- The parts between the characters that pass the test.
unfoldable pub split_by : (ℕ → Bool) → Text → List Text
split_by p [] = [] ∷ []
split_by p (c ∷ s) = let rest = split_by p s in if p c then [] ∷ rest else prepend c rest

-- `s.split(sep)`, at a separator of one character
unfoldable pub split : Text → ℕ → List Text
unfolding split_by
split s sep = split_by (λ c. c == sep) s

-- `s.split(sep, n)`: at most `n` cuts
unfoldable pub split_max : Text → ℕ → ℕ → List Text
split_max s sep zero = s ∷ []
split_max [] sep (suc n) = [] ∷ []
split_max (c ∷ s) sep (suc n) =
    let cut = [] ∷ split_max s sep n in
    let keep = prepend c (split_max s sep (suc n)) in if c == sep then cut else keep

unfoldable pub drop_empty : List Text → List Text
drop_empty [] = []
drop_empty ([] ∷ ws) = drop_empty ws
drop_empty ((c ∷ w) ∷ ws) = (c ∷ w) ∷ drop_empty ws

-- `s.split()`: the words between runs of white space
unfoldable pub words : Text → List Text
unfolding split_by drop_empty
words s = drop_empty (split_by is_space s)

-- `s[n:]`
unfoldable pub drop : ℕ → Text → Text
drop zero s = s
drop (suc n) [] = []
drop (suc n) (c ∷ s) = drop n s

-- `skip` characters are left out; then every match of the whole of `old` is written as `new`.
unfoldable pub replace_from : ℕ → Text → Text → Text → Text
unfolding starts_with
replace_from skip old new [] = []
replace_from (suc skip) old new (c ∷ s) = replace_from skip old new s
replace_from zero old new (c ∷ s) =
    let here = new ++ replace_from (length old - 1) old new s in
    let later = c ∷ replace_from 0 old new s in if starts_with (c ∷ s) old then here else later

-- `s.replace(old, new)`, for a text `old` that is not empty
unfoldable pub replace : Text → Text → Text → Text
unfolding replace_from
replace s old new = replace_from 0 old new s

-- A test of equality is the equality.
pub text_eq_iff : (s t : Text) → (text_eq s t ≡ true) ↔ (s ≡ t)
unfolding text_eq
text_eq_iff [] [] = ground arith
text_eq_iff [] (d ∷ t) = ground arith
text_eq_iff (c ∷ s) [] = ground arith
text_eq_iff (c ∷ s) (d ∷ t) = ground (arith, text_eq_iff s t)

words_runs : words (codes " 12\t+  1500~7\n") ≡ codes "12" ∷ codes "+" ∷ codes "1500~7" ∷ []
unfolding words codes
words_runs = refl

split_max_two : split_max (codes "a_b_c") b'_' 1 ≡ codes "a" ∷ codes "b_c" ∷ []
unfolding split_max codes
split_max_two = refl

replace_all : replace (codes "aXXXbXX") (codes "XX") (codes "y") ≡ codes "ayXby"
unfolding replace codes
replace_all = refl

strip_both : strip (codes " \t 7 8\n") ≡ codes "7 8"
unfolding strip codes
strip_both = refl
