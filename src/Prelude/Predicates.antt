-- ===== src/Prelude/Predicates.antt =====
-- A predicate on every element of a list.
use mathlib.Core.List.{List, [], ◌∷◌, ◌++◌, reverse, reverse-append}

module _ {ℓ κ} {A : Type ℓ} (P : A → Type κ) where
  abbrev pub Every : List A → Type κ
  Every [] = Unit
  Every (x ∷ xs) = P x × Every xs

  pub Every-append : (xs ys : List A) → Every xs → Every ys → Every (xs ++ ys)
  Every-append [] ys h k = k
  Every-append (x ∷ xs) ys (p, h) k = (p, Every-append xs ys h k)

  pub Every-reverse : (xs : List A) → Every xs → Every (reverse xs)
  Every-reverse [] h = tt
  Every-reverse (x ∷ xs) (p, h) =
      rw (reverse-append (x ∷ []) xs)
        (Every-append (reverse xs) (x ∷ []) (Every-reverse xs h) (p, tt))

pub Every-mono {ℓ κ μ} :
    {A : Type ℓ} (P : A → Type κ) (Q : A → Type μ)
    → ((x : A) → P x → Q x)
    → (xs : List A) → Every P xs
    → Every Q xs
Every-mono P Q f [] h = tt
Every-mono P Q f (x ∷ xs) (p, h) = (f x p, Every-mono P Q f xs h)
