-- ===== src/Base/Results.antt =====
-- Results of code that may throw, may meet undefined behaviour, or may not come to an end.
use mathlib.Core.Path.{◌≡◌, refl}
use mathlib.Core.Bool.{Bool, true, false}
use mathlib.Core.Option.{Option, none, some}
use uidentity.Base.Texts.{Bytes}

-- `out_of_fuel` stands for a loop that has not ended within its fuel.
pub data Error : Type 0 where
  out_of_fuel : Error
  undefined : Error
  runtime_error : Bytes → Error
  invalid_argument : Bytes → Error
  out_of_range : Error

-- What a call comes back with: an exception, or its value.
pub data Result {ℓ} (R : Type ℓ) : Type ℓ where
  err : Error → Result R
  ok : R → Result R

abbrev pub value_or {ℓ} : {A : Type ℓ} → Option A → A → A
value_or none d = d
value_or (some a) d = a

abbrev pub has_value {ℓ} : {A : Type ℓ} → Option A → Bool
has_value none = false
has_value (some a) = true

-- Sequencing, for `do` blocks: an exception ends the block.
infixl 5 ◌>>=◌ ◌>>◌
abbrev pub ◌>>=◌ {κ ℓ} : {R : Type κ} {S : Type ℓ} → Result R → (R → Result S) → Result S
err e >>= next = err e
ok r >>= next = next r

abbrev pub ◌>>◌ {κ} : {S : Type κ} → Result (Unit {0}) → Result S → Result S
first >> second = first >>= λ _. second

-- A block that ends in a value went through the first call with one.
pub ok_inv {κ ℓ} :
    {R : Type κ} {S : Type ℓ} {s : S} (first : Result R) (next : R → Result S)
    → (first >>= next) ≡ ok s
    → (r : R) × (next r ≡ ok s) × (first ≡ ok r)
ok_inv (err _) _ ended = cc
ok_inv (ok r) _ ended = (r, ended, refl)
