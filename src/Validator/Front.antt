-- ===== src/Validator/Front.antt =====
-- What the checks of the configuration and of the header find.
use uidentity.Base.{
  ℕ, Bool, true, false, not, [], ◌∷◌, some, Bytes, codes, is_empty, has_value, ok, ◌≡◌, ◌≢◌, sym,
  ◌&&◌,
}
use mathlib.Core.Bool.{false≢true}
use uidentity.Http.{AuthConfig}
use uidentity.Jwt.Token.{DecodedJwt, decode_jwt}
use uidentity.Jwt.Keys.{string_or}
use uidentity.Jwt.Signature.{evp_digest_for_alg}
use uidentity.Validator.Outcome.{go_on, fail_if, require, lift, >>=-eq-go_on}
use uidentity.Validator.Stages.{Header, check_config, read_header}
use uidentity.Validator.Claims.{fail_if-go_on, not-false, lift-go_on, require-go_on}

pub record GoodConfig (cfg : AuthConfig) : Type 0 where
  pub issuer : cfg.expected_issuer ≢ []
  pub jwks_url : cfg.jwks_url ≢ []
  pub audience : cfg.require_audience ≡ true → cfg.expected_audience ≢ []

-- A header that was read off a token.
pub record GoodHeader (fuel : ℕ) (token : Bytes) (header : Header) : Type 0 where
  pub decoded : decode_jwt token ≡ some header.jwt
  pub alg : string_or fuel header.jwt.header_json (codes "alg") [] ≡ ok header.alg
  pub supported : has_value (evp_digest_for_alg header.alg) ≡ true
  pub kid : string_or fuel header.jwt.header_json (codes "kid") [] ≡ ok header.kid
  pub kid_given : header.kid ≢ []

given : (s : Bytes) → is_empty s ≡ false → s ≢ []
given [] h = absurd (false≢true (sym h))
given (c ∷ s) h = λ e. cc

both-false : (b : Bool) (s : Bytes) → (b && is_empty s) ≡ false → b ≡ true → s ≢ []
both-false true s h _ = given s h
both-false false s h e = absurd (false≢true e)

pub check_config_sound : (cfg : AuthConfig) → check_config cfg ≡ go_on tt → GoodConfig cfg
unfolding check_config
check_config_sound cfg h =
    let (_, e₁, h₁) =
      >>=-eq-go_on
        (fail_if (is_empty cfg.expected_issuer) 500 (codes "auth_config_missing_expected_issuer")) _
        h in
    let (_, e₂, h₂) =
      >>=-eq-go_on (fail_if (is_empty cfg.jwks_url) 500 (codes "auth_config_missing_jwks_url")) _
        h₁ in
    record {
      issuer = given _ (fail_if-go_on _ _ _ e₁);
      jwks_url = given _ (fail_if-go_on _ _ _ e₂);
      audience = both-false cfg.require_audience _ (fail_if-go_on _ _ _ h₂);
    }

abbrev header_of : DecodedJwt → Bytes → Bytes → Header
header_of jwt alg kid = record { jwt = jwt; alg = alg; kid = kid }

pub read_header_sound :
    (fuel : ℕ) (token : Bytes) (header : Header)
    → read_header fuel token ≡ go_on header
    → GoodHeader fuel token header
unfolding read_header
read_header_sound fuel token header h =
    let (_, e₀, h₀) =
      >>=-eq-go_on (fail_if (is_empty token) 401 (codes "missing_access_token")) _ h in
    let (jwt, e₁, h₁) =
      >>=-eq-go_on (require (decode_jwt token) 401 (codes "invalid_jwt_format")) _ h₀ in
    let (alg, e₂, h₂) =
      >>=-eq-go_on (lift (string_or fuel jwt.header_json (codes "alg") [])) _ h₁ in
    let (_, e₃, h₃) = >>=-eq-go_on (fail_if (is_empty alg) 401 (codes "jwt_missing_alg")) _ h₂ in
    let (_, e₄, h₄) =
      >>=-eq-go_on
        (fail_if (not (has_value (evp_digest_for_alg alg))) 401 (codes "unsupported_jwt_alg")) _
        h₃ in
    let (kid, e₅, h₅) =
      >>=-eq-go_on (lift (string_or fuel jwt.header_json (codes "kid") [])) _ h₄ in
    let (_, e₆, h₆) = >>=-eq-go_on (fail_if (is_empty kid) 401 (codes "jwt_missing_kid")) _ h₅ in
    let same : header_of jwt alg kid ≡ header = cc h₆ in
    rw (sym same) (record {
      decoded = require-go_on _ _ _ e₁;
      alg = lift-go_on _ e₂;
      supported = not-false _ (fail_if-go_on _ _ _ e₄);
      kid = lift-go_on _ e₅;
      kid_given = given kid (fail_if-go_on _ _ _ e₆);
    })
