-- ===== src/Py/Text/Cuts.antt =====
-- Texts that are joined at a separator, and what `split` and `in` find in them.
use vatic_udp.Prelude.{
  ℕ, suc, List, [], ◌∷◌, ◌++◌, ◌≡◌, refl, ◌∙◌, ap, arith, true, false, ◌||◌, length, ◌==◌, Every,
}
use vatic_udp.Py.Text.{Text, starts_with, contains, split_max, prepend}

abbrev pub Lacks : ℕ → Text → Type 0
Lacks sep = Every (λ c. (c == sep) ≡ false)

-- The parts with a separator between neighbours
abbrev pub joined : ℕ → List Text → Text
joined sep [] = []
joined sep (p ∷ []) = p
joined sep (p ∷ q ∷ ps) = p ++ sep ∷ joined sep (q ∷ ps)

self_eq : (c : ℕ) → (c == c) ≡ true
self_eq c = ground arith

pub split_max-append :
    (sep n : ℕ) (p rest : Text)
    → Lacks sep p
    → split_max (p ++ sep ∷ rest) sep (suc n) ≡ p ∷ split_max rest sep n
unfolding split_max
split_max-append sep n [] rest h = rw (self_eq sep)
split_max-append sep n (c ∷ p) rest (d, h) = rw d (ap (prepend c) (split_max-append sep n p rest h))

-- The parts of a joined text, cut as often as it has separators between them; the last part may hold
-- the separator.
pub split_max-joined :
    (sep : ℕ) (ps : List Text) (last : Text)
    → Every (Lacks sep) ps
    → split_max (joined sep (ps ++ last ∷ [])) sep (length ps) ≡ ps ++ last ∷ []
unfolding split_max
split_max-joined sep [] last h = refl
split_max-joined sep (p ∷ []) last (d, h) = split_max-append sep 0 p last d
split_max-joined sep (p ∷ q ∷ ps) last (d, h) =
    split_max-append sep (suc (length ps)) p (joined sep (q ∷ ps ++ last ∷ [])) d
    ∙ ap (λ r. p ∷ r) (split_max-joined sep (q ∷ ps) last h)

-- A text of a separator and another character is looked for behind the first separator.
pub contains-append :
    (sep d : ℕ) (p rest : Text)
    → Lacks sep p
    → contains (p ++ sep ∷ rest) (sep ∷ d ∷ [])
      ≡ (starts_with rest (d ∷ []) || contains rest (sep ∷ d ∷ []))
unfolding contains starts_with
contains-append sep d [] rest h = rw (self_eq sep)
contains-append sep d (c ∷ p) rest (e, h) = rw e (contains-append sep d p rest h)
