-- ===== src/Prelude/Lists.antt =====
-- Lists measured by native numbers, their sums, and the last element.
use Prim.Native.Nat.{ℕ, zero, suc, ◌+◌}
use mathlib.Core.Path.{◌≡◌, refl, ap}
use mathlib.Core.List.{List, [], ◌∷◌, ◌++◌, map}
use mathlib.Core.Option.{Option, none, some}
use Prim.Native.Nat.add
use native.Mathlib.Nat.{add-zero}
use native.Mathlib.Omega.{arith}

module _ {ℓ} {A : Type ℓ} where
  abbrev pub length : List A → ℕ
  length [] = 0
  length (x ∷ xs) = suc (length xs)

  pub length-append : (xs ys : List A) → length (xs ++ ys) ≡ length xs + length ys
  length-append [] ys = omega arith
  length-append (x ∷ xs) ys = omega (arith, length-append xs ys)

  abbrev pub get_elem? : List A → ℕ → Option A
  get_elem? [] i = none
  get_elem? (x ∷ xs) zero = some x
  get_elem? (x ∷ xs) (suc i) = get_elem? xs i

  -- `xs[-1]`
  abbrev pub last? : List A → Option A
  last? [] = none
  last? (x ∷ []) = some x
  last? (x ∷ y ∷ xs) = last? (y ∷ xs)

  -- `xs[-1] = f(xs[-1])`
  abbrev pub update_last : (A → A) → List A → List A
  update_last f [] = []
  update_last f (x ∷ []) = f x ∷ []
  update_last f (x ∷ y ∷ xs) = x ∷ update_last f (y ∷ xs)

  pub length-update_last : (f : A → A) (xs : List A) → length (update_last f xs) ≡ length xs
  length-update_last f [] = refl
  length-update_last f (x ∷ []) = refl
  length-update_last f (x ∷ y ∷ xs) = ap suc (length-update_last f (y ∷ xs))

  pub update_last-concat :
      (f : A → A) (xs : List A) (x : A) → update_last f (xs ++ x ∷ []) ≡ xs ++ f x ∷ []
  update_last-concat f [] x = refl
  update_last-concat f (y ∷ []) x = refl
  update_last-concat f (y ∷ z ∷ xs) x = ap (λ r. y ∷ r) (update_last-concat f (z ∷ xs) x)

module _ {ℓ} {A : Type ℓ} where
  -- `[a] * n`
  abbrev pub replicate : ℕ → A → List A
  replicate zero a = []
  replicate (suc n) a = a ∷ replicate n a

  pub length-replicate : (n : ℕ) (a : A) → length (replicate n a) ≡ n
  length-replicate zero a = refl
  length-replicate (suc n) a = ap suc (length-replicate n a)

pub length-map {ℓ κ} :
    {A : Type ℓ} {B : Type κ} (xs : List A) (f : A → B) → length (map f xs) ≡ length xs
length-map [] f = refl
length-map (x ∷ xs) f = ap suc (length-map xs f)

abbrev pub sum : List ℕ → ℕ
sum [] = 0
sum (x ∷ xs) = x + sum xs

pub sum-append : (xs ys : List ℕ) → sum (xs ++ ys) ≡ sum xs + sum ys
sum-append [] ys = omega arith
sum-append (x ∷ xs) ys = omega (arith, sum-append xs ys)

-- `range(i, i + n)`
abbrev pub range_from : ℕ → ℕ → List ℕ
range_from i zero = []
range_from i (suc n) = i ∷ range_from (i + 1) n

pub length-range_from : (i n : ℕ) → length (range_from i n) ≡ n
length-range_from i zero = refl
length-range_from i (suc n) = ap suc (length-range_from (i + 1) n)

pub range_from-append : (i m n : ℕ) → range_from i m ++ range_from (i + m) n ≡ range_from i (m + n)
range_from-append i zero n = rw (add-zero, add.zero)
range_from-append i (suc m) n =
    let shift : i + suc m ≡ i + 1 + m = omega arith in
    rw (add.suc, shift) (ap (λ r. i ∷ r) (range_from-append (i + 1) m n))

pub range_from_zero-append : (m n : ℕ) → range_from 0 m ++ range_from m n ≡ range_from 0 (m + n)
range_from_zero-append m n = rw add.zero at (range_from-append 0 m n)
