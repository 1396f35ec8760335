-- ===== src/Validator/Rejects.antt =====
-- Every early return of `validate` is a refusal.
use uidentity.Base.{
  ℕ, Bool, true, false, List, Option, none, some, Bytes, is_empty, Result, ok, err, Error, ◌≡◌,
  refl, Bool-cases, inl, inr,
}
use uidentity.Base.Int.{ℤ}
use uidentity.Http.{AuthConfig}
use uidentity.Jwt.Keys.{Jwk}
use uidentity.Jwt.Signature.{Openssl}
use uidentity.Validator.Outcome.{
  Outcome, go_on, return, abort, ◌>>=◌, fail_if, require, lift, failure, JwtValidationResult,
}
use uidentity.Validator.Stages.{
  Header, read_header, check_config, check_signature, check_issuer, check_expiry, not_before,
  check_not_before, match_audience, check_audience, match_azp, check_azp, build_context,
  check_claims,
}

pub data Rejects {ℓ} {A : Type ℓ} : Outcome A → Type ℓ where
  goes_on : (a : A) → Rejects (go_on a)
  refuses : (r : JwtValidationResult) → r.accepted ≡ false → Rejects (return r)
  aborts : (e : Error) → Rejects (abort e)

pub Rejects-bind {ℓ κ} :
    {A : Type ℓ} {B : Type κ} {m : Outcome A} {f : A → Outcome B}
    → Rejects m
    → ((a : A) → Rejects (f a))
    → Rejects (m >>= f)
Rejects-bind (goes_on a) h = h a
Rejects-bind (refuses r e) h = refuses r e
Rejects-bind (aborts e) h = aborts e

Rejects-fail_if : (b : Bool) (status : ℕ) (error : Bytes) → Rejects (fail_if b status error)
unfolding failure
Rejects-fail_if true status error = refuses _ refl
Rejects-fail_if false status error = goes_on tt

Rejects-require {ℓ} :
    {A : Type ℓ} (o : Option A) (status : ℕ) (error : Bytes) → Rejects (require o status error)
unfolding failure
Rejects-require none status error = refuses _ refl
Rejects-require (some a) status error = goes_on a

Rejects-lift {ℓ} : {A : Type ℓ} (r : Result A) → Rejects (lift r)
Rejects-lift (ok a) = goes_on a
Rejects-lift (err e) = aborts e

ruleset refusals = (Rejects-bind, Rejects-fail_if, Rejects-require, Rejects-lift, goes_on)

pub check_config-Rejects : (cfg : AuthConfig) → Rejects (check_config cfg)
unfolding check_config
check_config-Rejects cfg = search refusals depth 12

pub read_header-Rejects : (fuel : ℕ) (token : Bytes) → Rejects (read_header fuel token)
unfolding read_header
read_header-Rejects fuel token = search refusals depth 20

pub check_signature-Rejects :
    (ssl : Openssl) (keys : List Jwk) (header : Header) → Rejects (check_signature ssl keys header)
unfolding check_signature
check_signature-Rejects ssl keys header = search refusals depth 12

check_issuer-Rejects :
    (fuel : ℕ) (cfg : AuthConfig) (payload : Bytes) → Rejects (check_issuer fuel cfg payload)
unfolding check_issuer
check_issuer-Rejects fuel cfg payload = search refusals depth 12

check_expiry-Rejects :
    (fuel : ℕ) (cfg : AuthConfig) (now : ℤ) (payload : Bytes)
    → Rejects (check_expiry fuel cfg now payload)
unfolding check_expiry
check_expiry-Rejects fuel cfg now payload = search refusals depth 12

not_before-Rejects :
    (cfg : AuthConfig) (now : ℤ) (found : Option ℤ) → Rejects (not_before cfg now found)
unfolding not_before
not_before-Rejects cfg now none = goes_on tt
not_before-Rejects cfg now (some nbf) = search refusals depth 12

check_not_before-Rejects :
    (fuel : ℕ) (cfg : AuthConfig) (now : ℤ) (payload : Bytes)
    → Rejects (check_not_before fuel cfg now payload)
unfolding check_not_before
check_not_before-Rejects fuel cfg now payload =
    Rejects-bind (Rejects-lift _) (not_before-Rejects cfg now)

match_audience-Rejects :
    (fuel : ℕ) (cfg : AuthConfig) (payload : Bytes) → Rejects (match_audience fuel cfg payload)
unfolding match_audience
match_audience-Rejects fuel cfg payload = search refusals depth 12

check_audience-Rejects :
    (fuel : ℕ) (cfg : AuthConfig) (payload : Bytes) → Rejects (check_audience fuel cfg payload)
unfolding check_audience
check_audience-Rejects fuel cfg payload = elim (Bool-cases cfg.require_audience) [
  | inl on ↦ rw (on, check_audience) (match_audience-Rejects fuel cfg payload)
  | inr off ↦ rw (off, check_audience) (goes_on tt)
]

match_azp-Rejects :
    (fuel : ℕ) (cfg : AuthConfig) (payload : Bytes) → Rejects (match_azp fuel cfg payload)
unfolding match_azp
match_azp-Rejects fuel cfg payload = search refusals depth 12

check_azp-Rejects :
    (fuel : ℕ) (cfg : AuthConfig) (payload : Bytes) → Rejects (check_azp fuel cfg payload)
unfolding check_azp
check_azp-Rejects fuel cfg payload = elim (Bool-cases (is_empty cfg.expected_azp)) [
  | inl off ↦ rw (off, check_azp) (goes_on tt)
  | inr on ↦ rw (on, check_azp) (match_azp-Rejects fuel cfg payload)
]

build_context-Rejects : (fuel : ℕ) (payload : Bytes) → Rejects (build_context fuel payload)
unfolding build_context
build_context-Rejects fuel payload = search refusals depth 20

pub check_claims-Rejects :
    (fuel : ℕ) (cfg : AuthConfig) (now : ℤ) (payload : Bytes)
    → Rejects (check_claims fuel cfg now payload)
unfolding check_claims
check_claims-Rejects fuel cfg now payload =
    Rejects-bind (check_issuer-Rejects fuel cfg payload) λ _.
      Rejects-bind (check_expiry-Rejects fuel cfg now payload) λ _.
        Rejects-bind (check_not_before-Rejects fuel cfg now payload) λ _.
          Rejects-bind (check_audience-Rejects fuel cfg payload) λ _.
            Rejects-bind (check_azp-Rejects fuel cfg payload)
              λ _. build_context-Rejects fuel payload
