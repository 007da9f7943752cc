-- ===== src/Py/Format/Fields.antt =====
-- What `str.format` makes of a template whose one field stands between texts with no brace.
use vatic_udp.Prelude.{
  ℕ, [], ◌∷◌, ◌++◌, Bool, true, false, ◌||◌, ◌==◌, ◌≡◌, refl, ap, ok, Every, arith,
}
use vatic_udp.Py.Text.{Text}
use vatic_udp.Py.Format.{plain, piece, on_ok, fill, format_one}

abbrev pub is_brace : ℕ → Bool
is_brace c = c == b'{' || c == b'}'

abbrev pub NoBrace : Text → Type 0
NoBrace = Every (λ c. is_brace c ≡ false)

piece-plain : (c d : ℕ) → is_brace c ≡ false → piece c d ≡ plain
unfolding piece
piece-plain c d h = ground arith

fill-last :
    (used : Bool) (arg : Text) (c : ℕ) → is_brace c ≡ false → fill used arg (c ∷ []) ≡ ok (c ∷ [])
unfolding fill
fill-last used arg c h = ground arith

fill-plain : (used : Bool) (arg s : Text) → NoBrace s → fill used arg s ≡ ok s
unfolding fill on_ok
fill-plain used arg [] h = refl
fill-plain used arg (c ∷ []) (h, k) = fill-last used arg c h
fill-plain used arg (c ∷ d ∷ s) (h, k) =
    rw (fill, piece-plain c d h) (ap (on_ok (λ r. c ∷ r)) (fill-plain used arg (d ∷ s) k))

fill-before :
    (arg pre post : Text)
    → NoBrace pre
    → NoBrace post
    → fill false arg (pre ++ b'{' ∷ b'}' ∷ post) ≡ ok (pre ++ arg ++ post)
unfolding fill on_ok piece
fill-before arg [] post h k = ap (on_ok (λ r. arg ++ r)) (fill-plain true arg post k)
fill-before arg (c ∷ []) post (h, hs) k =
    rw (fill, piece-plain c b'{' h) (ap (on_ok (λ r. c ∷ r)) (fill-before arg [] post hs k))
fill-before arg (c ∷ d ∷ pre) post (h, hs) k =
    rw (fill, piece-plain c d h) (ap (on_ok (λ r. c ∷ r)) (fill-before arg (d ∷ pre) post hs k))

-- The argument takes the place of the field, whatever it holds.
pub format_one-field :
    (pre post arg : Text)
    → NoBrace pre
    → NoBrace post
    → format_one (pre ++ b'{' ∷ b'}' ∷ post) arg ≡ ok (pre ++ arg ++ post)
unfolding format_one
format_one-field pre post arg h k = fill-before arg pre post h k
