-- ===== src/Validator/Claims.antt =====
-- What the checks of the claims and of the signature have found out when they go on.
use uidentity.Base.{
  is_empty-ne, ℕ, Bool, true, false, not, List, [], Option, none, some, Bytes, codes, is_empty,
  eq_bytes→eq, Result, ok, err, ◌≡◌, ◌≢◌, refl, ◌∙◌, ap, arith,
}
use uidentity.Base.Int.{ℤ, ◌+ℤ◌, ltb_ℤ, ◌≤ℤ◌}
use uidentity.Http.{AuthConfig, RequestContext}
use uidentity.Json.Strings.{contains_string}
use uidentity.Json.Extract.{extract_json_string, extract_json_int64}
use uidentity.Jwt.Keys.{Jwk, string_or}
use uidentity.Jwt.Claims.{extract_audience_values}
use uidentity.Jwt.Signature.{Openssl, verify_rsa_signature}
use uidentity.Validator.Outcome.{go_on, fail_if, require, lift, >>=-eq-go_on}
use uidentity.Validator.Stages.{
  Header, find_key, check_signature, check_issuer, check_expiry, check_not_before, check_audience,
  check_azp, match_audience, match_azp, add_int64, add_int64-ok, not_before, build_context,
  check_claims,
}

-- What the checks of the claims find in a payload.
pub record GoodClaims (fuel : ℕ) (cfg : AuthConfig) (now : ℤ) (payload : Bytes) : Type 0 where
  pub issuer : extract_json_string fuel payload (codes "iss") ≡ ok (some cfg.expected_issuer)
  pub expiry :
      (exp : ℤ) × (extract_json_int64 fuel payload (codes "exp") ≡ ok (some exp))
      × (now ≤ℤ exp +ℤ cfg.clock_skew_seconds)
  pub not_before :
      (nbf : ℤ)
      → extract_json_int64 fuel payload (codes "nbf") ≡ ok (some nbf)
      → nbf ≤ℤ now +ℤ cfg.clock_skew_seconds
  pub audience :
      cfg.require_audience ≡ true
      → (values : List Bytes) × (extract_audience_values fuel payload ≡ ok values)
        × (contains_string values cfg.expected_audience ≡ true)
  pub azp : cfg.expected_azp ≢ [] → string_or fuel payload (codes "azp") [] ≡ ok cfg.expected_azp

pub fail_if-go_on :
    (b : Bool) (status : ℕ) (error : Bytes) → fail_if b status error ≡ go_on tt → b ≡ false
fail_if-go_on true status error h = cc
fail_if-go_on false status error h = refl

pub not-false : (b : Bool) → not b ≡ false → b ≡ true
not-false true h = refl
not-false false h = cc

pub lift-go_on {ℓ} : {A : Type ℓ} (r : Result A) {a : A} → lift r ≡ go_on a → r ≡ ok a
lift-go_on (ok b) h = cc
lift-go_on (err e) h = cc

pub require-go_on {ℓ} :
    {A : Type ℓ} (o : Option A) (status : ℕ) (error : Bytes) {a : A}
    → require o status error ≡ go_on a
    → o ≡ some a
require-go_on none status error h = cc
require-go_on (some b) status error h = cc

check_issuer_sound :
    (fuel : ℕ) (cfg : AuthConfig) (payload : Bytes)
    → check_issuer fuel cfg payload ≡ go_on tt
    → extract_json_string fuel payload (codes "iss") ≡ ok (some cfg.expected_issuer)
unfolding check_issuer
check_issuer_sound fuel cfg payload h =
    let (found, e₁, h₁) =
      >>=-eq-go_on (lift (extract_json_string fuel payload (codes "iss"))) _ h in
    let (issuer, e₂, h₂) = >>=-eq-go_on (require found 401 (codes "jwt_missing_issuer")) _ h₁ in
    let (_, _, h₃) =
      >>=-eq-go_on (fail_if (is_empty issuer) 401 (codes "jwt_missing_issuer")) _ h₂ in
    lift-go_on _ e₁
    ∙ ap ok (require-go_on found _ _ e₂)
    ∙ ap (λ i. ok (some i)) (eq_bytes→eq issuer _ (not-false _ (fail_if-go_on _ _ _ h₃)))

ltb_ℤ-false : (a b : ℤ) → ltb_ℤ a b ≡ false → b ≤ℤ a
ltb_ℤ-false a b h = ground arith

check_expiry_sound :
    (fuel : ℕ) (cfg : AuthConfig) (now : ℤ) (payload : Bytes)
    → check_expiry fuel cfg now payload ≡ go_on tt
    → (exp : ℤ) × (extract_json_int64 fuel payload (codes "exp") ≡ ok (some exp))
      × (now ≤ℤ exp +ℤ cfg.clock_skew_seconds)
unfolding check_expiry
check_expiry_sound fuel cfg now payload h =
    let (found, e₁, h₁) = >>=-eq-go_on (lift (extract_json_int64 fuel payload (codes "exp"))) _ h in
    let (exp, e₂, h₂) = >>=-eq-go_on (require found 401 (codes "jwt_missing_exp")) _ h₁ in
    let (limit, e₃, h₃) = >>=-eq-go_on (lift (add_int64 exp cfg.clock_skew_seconds)) _ h₂ in
    let sum : limit ≡ exp +ℤ cfg.clock_skew_seconds = add_int64-ok exp _ (lift-go_on _ e₃) in
    (
      exp,
      lift-go_on _ e₁ ∙ ap ok (require-go_on found _ _ e₂),
      rw sum at (ltb_ℤ-false limit now (fail_if-go_on _ _ _ h₃)),
    )

check_not_before_sound :
    (fuel : ℕ) (cfg : AuthConfig) (now : ℤ) (payload : Bytes)
    → check_not_before fuel cfg now payload ≡ go_on tt
    → (nbf : ℤ) → extract_json_int64 fuel payload (codes "nbf") ≡ ok (some nbf)
    → nbf ≤ℤ now +ℤ cfg.clock_skew_seconds
unfolding check_not_before not_before
check_not_before_sound fuel cfg now payload h nbf e =
    let h₁ : not_before cfg now (some nbf) ≡ go_on tt = rw e at h in
    let (latest, e₂, h₂) = >>=-eq-go_on (lift (add_int64 now cfg.clock_skew_seconds)) _ h₁ in
    rw (add_int64-ok now _ (lift-go_on _ e₂)) at (ltb_ℤ-false latest nbf (fail_if-go_on _ _ _ h₂))

match_audience_sound :
    (fuel : ℕ) (cfg : AuthConfig) (payload : Bytes)
    → match_audience fuel cfg payload ≡ go_on tt
    → (values : List Bytes) × (extract_audience_values fuel payload ≡ ok values)
      × (contains_string values cfg.expected_audience ≡ true)
unfolding match_audience
match_audience_sound fuel cfg payload h =
    let (values, e₁, h₁) = >>=-eq-go_on (lift (extract_audience_values fuel payload)) _ h in
    (values, lift-go_on _ e₁, not-false _ (fail_if-go_on _ _ _ h₁))

match_azp_sound :
    (fuel : ℕ) (cfg : AuthConfig) (payload : Bytes)
    → match_azp fuel cfg payload ≡ go_on tt
    → string_or fuel payload (codes "azp") [] ≡ ok cfg.expected_azp
unfolding match_azp
match_azp_sound fuel cfg payload h =
    let (azp, e₁, h₁) = >>=-eq-go_on (lift (string_or fuel payload (codes "azp") [])) _ h in
    lift-go_on _ e₁ ∙ ap ok (eq_bytes→eq azp _ (not-false _ (fail_if-go_on _ _ _ h₁)))

-- The optional checks, where the configuration asks for them.
audience_matched :
    (fuel : ℕ) (cfg : AuthConfig) (payload : Bytes)
    → check_audience fuel cfg payload ≡ go_on tt
    → cfg.require_audience ≡ true
    → match_audience fuel cfg payload ≡ go_on tt
unfolding check_audience
audience_matched fuel cfg payload h required = ground arith

azp_matched :
    (fuel : ℕ) (cfg : AuthConfig) (payload : Bytes)
    → check_azp fuel cfg payload ≡ go_on tt
    → is_empty cfg.expected_azp ≡ false
    → match_azp fuel cfg payload ≡ go_on tt
unfolding check_azp
azp_matched fuel cfg payload h given = ground arith

pub check_claims_sound :
    (fuel : ℕ) (cfg : AuthConfig) (now : ℤ) (payload : Bytes) {context : RequestContext}
    → check_claims fuel cfg now payload ≡ go_on context
    → GoodClaims fuel cfg now payload × (build_context fuel payload ≡ go_on context)
unfolding check_claims
check_claims_sound fuel cfg now payload h =
    let (_, iss, h₁) = >>=-eq-go_on (check_issuer fuel cfg payload) _ h in
    let (_, exp, h₂) = >>=-eq-go_on (check_expiry fuel cfg now payload) _ h₁ in
    let (_, nbf, h₃) = >>=-eq-go_on (check_not_before fuel cfg now payload) _ h₂ in
    let (_, aud, h₄) = >>=-eq-go_on (check_audience fuel cfg payload) _ h₃ in
    let (_, azp, h₅) = >>=-eq-go_on (check_azp fuel cfg payload) _ h₄ in
    (
      record {
        issuer = check_issuer_sound fuel cfg payload iss;
        expiry = check_expiry_sound fuel cfg now payload exp;
        not_before = check_not_before_sound fuel cfg now payload nbf;
        audience = λ required.
            match_audience_sound fuel cfg payload (audience_matched fuel cfg payload aud required);
        azp = λ given.
            match_azp_sound fuel cfg payload
              (azp_matched fuel cfg payload azp (is_empty-ne _ given));
      },
      h₅,
    )

-- What `back` has found out when it goes on.
pub check_signature_sound :
    (ssl : Openssl) (keys : List Jwk) (header : Header)
    → check_signature ssl keys header ≡ go_on tt
    → (key : Jwk) × (find_key keys header.kid ≡ some key)
      × (verify_rsa_signature ssl key header.alg header.jwt.signing_input header.jwt.signature
          ≡ true)
unfolding check_signature
check_signature_sound ssl keys header h =
    let (key, e₁, h₁) =
      >>=-eq-go_on (require (find_key keys header.kid) 401 (codes "jwks_key_not_found")) _ h in
    (key, require-go_on _ _ _ e₁, not-false _ (fail_if-go_on _ _ _ h₁))
