-- ===== src/Py/Text/Words.antt =====
-- Words that are set apart by spaces, and what `split()` makes of them.
use vatic_udp.Prelude.{
  List, [], ◌∷◌, ◌++◌, append_assoc, append-nil, ◌≡◌, ◌≢◌, refl, sym, ap, ◌∙◌, false, Every,
}
use vatic_udp.Py.Text.{Text, is_space, split_by, prepend, drop_empty, words}

-- A space in front of each word
abbrev pub spaced : List Text → Text
spaced [] = []
spaced (w ∷ ws) = b' ' ∷ w ++ spaced ws

pub spaced-append : (vs ws : List Text) → spaced (vs ++ ws) ≡ spaced vs ++ spaced ws
spaced-append [] ws = refl
spaced-append (v ∷ vs) ws =
    ap (λ r. b' ' ∷ r)
      (ap (λ r. v ++ r) (spaced-append vs ws) ∙ sym (append_assoc v (spaced vs) (spaced ws)))

abbrev pub NoSpace : Text → Type 0
NoSpace = Every (λ c. is_space c ≡ false)

-- A word has a character, and no white space.
pub record Word (w : Text) : Type 0 where
  pub not_nil : w ≢ []
  pub no_space : NoSpace w

split_by-word :
    (w rest : Text) → NoSpace w → split_by is_space (w ++ b' ' ∷ rest) ≡ w ∷ split_by is_space rest
unfolding split_by
split_by-word [] rest h = refl
split_by-word (c ∷ w) rest (d, h) = rw d (ap (prepend c) (split_by-word w rest h))

split_by-last : (w : Text) → NoSpace w → split_by is_space w ≡ w ∷ []
unfolding split_by
split_by-last [] h = refl
split_by-last (c ∷ w) (d, h) = rw d (ap (prepend c) (split_by-last w h))

drop_empty-word : (w : Text) (ws : List Text) → w ≢ [] → drop_empty (w ∷ ws) ≡ w ∷ drop_empty ws
unfolding drop_empty
drop_empty-word [] ws h = absurd (h refl)
drop_empty-word (c ∷ w) ws h = refl

-- `split()` finds the words again.
pub words-spaced :
    (w : Text) (ws : List Text) → Word w → Every Word ws → words (w ++ spaced ws) ≡ w ∷ ws
unfolding words drop_empty
words-spaced w [] h k =
    rw (append-nil w, split_by-last w h.no_space) (drop_empty-word w [] h.not_nil)
words-spaced w (v ∷ ws) h (k, ks) = rw (split_by-word w (v ++ spaced ws) h.no_space) (
    drop_empty-word w (split_by is_space (v ++ spaced ws)) h.not_nil
    ∙ ap (λ r. w ∷ r) (words-spaced v ws k ks))
