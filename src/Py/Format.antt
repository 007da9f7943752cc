-- ===== src/Py/Format.antt =====
-- `str.format` with one argument, and the paths of `os.path`.
pub mod Fields
use vatic_udp.Prelude.{
  ℕ, [], ◌∷◌, ◌++◌, reverse, Bool, true, false, ◌&&◌, not, ◌==◌, if◌then◌else◌, none, some, last?,
  ◌≡◌, refl, Result, ok, err, format_error,
}
use vatic_udp.Py.Text.{Text, codes, starts_with, split}

-- What two characters of a template are: a field `{}`, an escaped brace, a brace that is neither, or
-- plain text.
pub data Piece : Type 0 where
  field escape broken plain : Piece

piece : ℕ → ℕ → Piece
piece c d =
    if c == b'{'
    then (if d == b'}' then field else if d == b'{' then escape else broken)
    else if c == b'}'
    then (if d == b'}' then escape else broken)
    else plain

on_ok {ℓ} : {A : Type ℓ} → (A → A) → Result A → Result A
on_ok f (ok a) = ok (f a)
on_ok f (err e) = err e

-- The flag says that the argument has been used: a second field has no argument and raises, as does
-- a field with anything between its braces behind a field `{}`. Every template of the scripts has
-- `{}` as its first field.
fill : Bool → Text → Text → Result Text
unfolding piece on_ok
fill used arg [] = ok []
fill used arg (c ∷ []) =
    if c == b'{' then err format_error else if c == b'}' then err format_error else ok (c ∷ [])
fill used arg (c ∷ d ∷ s) = elim (piece c d) [
  | field ↦ elim used [ true ↦ err format_error | false ↦ on_ok (λ r. arg ++ r) (fill true arg s) ]
  | escape ↦ on_ok (λ r. c ∷ r) (fill used arg s)
  | broken ↦ err format_error
  | plain ↦ on_ok (λ r. c ∷ r) (fill used arg (d ∷ s))
]

-- `template.format(arg)`
unfoldable pub format_one : Text → Text → Result Text
unfolding fill
format_one template arg = fill false arg template

-- A directory to which a name can be added with no slash between.
ends_open : Text → Bool
ends_open t = elim (last? t) [ none ↦ true | some c ↦ c == b'/' ]

-- `os.path.join(a, b)`
unfoldable pub path_join : Text → Text → Text
unfolding codes starts_with ends_open
path_join a b =
    if starts_with b (codes "/") then b else if ends_open a then a ++ b else a ++ b'/' ∷ b

-- `os.path.basename(p)`
unfoldable pub basename : Text → Text
unfolding split
basename p = elim (last? (split p b'/')) [ none ↦ [] | some name ↦ name ]

-- From the end: the characters up to the last dot, if one comes before a slash and some character
-- other than a dot stands before it in its name.
proper_stem : Text → Bool
proper_stem [] = false
proper_stem (c ∷ r) = not (c == b'/') && (if c == b'.' then proper_stem r else true)

cut_suffix : Text → Text → Text
unfolding proper_stem
cut_suffix whole [] = whole
cut_suffix whole (c ∷ r) =
    if c == b'.'
    then (if proper_stem r then r else whole)
    else if c == b'/'
    then whole
    else cut_suffix whole r

-- `os.path.splitext(p)[0]`
unfoldable pub splitext_root : Text → Text
unfolding cut_suffix
splitext_root p = reverse (cut_suffix (reverse p) (reverse p))

format_samples :
    (format_one (codes "to {} {{}}") (codes "ip") ≡ ok (codes "to ip {}"))
    × (format_one (codes "{} {}") (codes "ip") ≡ err format_error)
unfolding format_one codes
format_samples = (refl, refl)

path_samples :
    (path_join (codes "a") (codes "b") ≡ codes "a/b")
    × (path_join (codes "a/") (codes "b") ≡ codes "a/b")
    × (path_join (codes "a") (codes "/b") ≡ codes "/b")
    × (basename (codes "out/x.csv") ≡ codes "x.csv")
    × (splitext_root (codes "a.d/x.tar.gz") ≡ codes "a.d/x.tar")
    × (splitext_root (codes "a.d/.rc") ≡ codes "a.d/.rc")
unfolding path_join basename splitext_root codes
path_samples = (refl, refl, refl, refl, refl, refl)
