-- ===== src/Validator/Outcome.antt =====
-- JwtValidationResult, and the control flow of `validate`: go on, return a result early, or not return.
use uidentity.Base.{
  ℕ, Bool, true, false, Option, none, some, Bytes, Result, ok, err, Error, ◌≡◌, refl,
}
use uidentity.Http.{RequestContext, no_context}

pub record JwtValidationResult : Type 0 where
  pub accepted : Bool
  pub http_status : ℕ
  pub error : Bytes
  pub context : RequestContext

unfoldable pub failure : ℕ → Bytes → JwtValidationResult
failure http_status error = record {
  accepted = false;
  http_status = http_status;
  error = error;
  context = no_context;
}

pub data Outcome {ℓ} (A : Type ℓ) : Type ℓ where
  go_on : A → Outcome A
  return : JwtValidationResult → Outcome A
  abort : Error → Outcome A

infixl 5 ◌>>=◌ ◌>>◌
abbrev pub ◌>>=◌ {ℓ κ} : {A : Type ℓ} {B : Type κ} → Outcome A → (A → Outcome B) → Outcome B
go_on a >>= f = f a
return r >>= f = return r
abort e >>= f = abort e

abbrev pub ◌>>◌ {ℓ} : {B : Type ℓ} → Outcome (Unit {0}) → Outcome B → Outcome B
m >> k = m >>= λ _. k

-- `if (test) co_return failure(status, error);`
abbrev pub fail_if : Bool → ℕ → Bytes → Outcome (Unit {0})
fail_if true status error = return (failure status error)
fail_if false status error = go_on tt

-- A value that must be there.
abbrev pub require {ℓ} : {A : Type ℓ} → Option A → ℕ → Bytes → Outcome A
require none status error = return (failure status error)
require (some a) status error = go_on a

abbrev pub lift {ℓ} : {A : Type ℓ} → Result A → Outcome A
lift (ok a) = go_on a
lift (err e) = abort e

-- Inversion of a bind that goes on.
pub >>=-eq-go_on {ℓ κ} :
    {A : Type ℓ} {B : Type κ} (m : Outcome A) (f : A → Outcome B) {b : B}
    → (m >>= f) ≡ go_on b
    → (a : A) × (m ≡ go_on a) × (f a ≡ go_on b)
>>=-eq-go_on (go_on a) f h = (a, refl, h)
>>=-eq-go_on (return r) f h = cc
>>=-eq-go_on (abort e) f h = cc
