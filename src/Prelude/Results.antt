-- ===== src/Prelude/Results.antt =====
-- Python's exceptions as values: the kinds that the modelled code raises, and results in `do` blocks.
use mathlib.Core.Path.{◌≡◌, refl}
use mathlib.Core.Option.{Option, none, some}
use mathlib.Core.Logic.{◌⊎◌, inl, inr}

pub data Error : Type 0 where
  value_error : Error
  index_error : Error
  type_error : Error
  name_error : Error
  unbound_local_error : Error
  attribute_error : Error
  zero_division_error : Error
  assertion_error : Error
  argument_type_error : Error
  format_error : Error
  file_not_found_error : Error
  exception : Error
  system_exit : Error

pub data Result {ℓ} (A : Type ℓ) : Type ℓ where
  err : Error → Result A
  ok : A → Result A

-- What an absent value raises where it is used.
abbrev pub or_raise {ℓ} : {A : Type ℓ} → Error → Option A → Result A
or_raise e none = err e
or_raise e (some x) = ok x

infixl 5 ◌>>=◌ ◌>>◌
abbrev pub ◌>>=◌ {ℓ μ} : {A : Type ℓ} {B : Type μ} → Result A → (A → Result B) → Result B
err e >>= k = err e
ok x >>= k = k x

abbrev pub ◌>>◌ {ℓ μ} : {A : Type ℓ} {B : Type μ} → Result A → Result B → Result B
first >> second = first >>= λ x. second

-- A step and what follows it have both succeeded.
pub >>=-eq-ok {ℓ μ} :
    {A : Type ℓ} {B : Type μ} (step : Result A) (rest : A → Result B) {y : B}
    → (step >>= rest) ≡ ok y
    → (x : A) × (step ≡ ok x) × (rest x ≡ ok y)
>>=-eq-ok (err e) rest h = cc
>>=-eq-ok (ok x) rest h = (x, refl, h)

pub >>=_assoc {ℓ κ μ} :
    {A : Type ℓ} {B : Type κ} {C : Type μ} (m : Result A) (f : A → Result B) (g : B → Result C)
    → (m >>= f >>= g) ≡ (m >>= λ a. f a >>= g)
>>=_assoc (ok a) f g = refl
>>=_assoc (err e) f g = refl

pub Result-cases {ℓ} :
    {A : Type ℓ} (r : Result A) → ((e : Error) × (r ≡ err e)) ⊎ ((a : A) × (r ≡ ok a))
Result-cases (err e) = inl (e, refl)
Result-cases (ok a) = inr (a, refl)

pub ok-injective {ℓ} : {A : Type ℓ} {a b : A} → ok a ≡ ok b → a ≡ b
ok-injective h = cc h
