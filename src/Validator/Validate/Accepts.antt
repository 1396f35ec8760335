-- ===== src/Validator/Validate/Accepts.antt =====
-- Tokens that `validate` accepts while the key cache is fresh.
use uidentity.Base.{
  is_empty-ne, ℕ, true, false, List, [], ◌∷◌, Option, none, some, Bytes, codes, eq_bytes_refl, ok,
  ◌≡◌, ◌≢◌, refl, ◌∙◌, sym, arith, Bool-cases, inl, inr,
}
use mathlib.Core.List.{cons-ne-nil}
use uidentity.Base.Int.{ℤ, ltb_ℤ, ◌≤ℤ◌}
use uidentity.Http.{AuthConfig, RequestContext}
use uidentity.Json.Strings.{contains_string}
use uidentity.Json.Extract.{extract_json_string, extract_json_int64}
use uidentity.Jwt.Keys.{Jwk, string_or}
use uidentity.Jwt.Claims.{extract_audience_values}
use uidentity.Jwt.Signature.{Openssl, verify_rsa_signature}
use uidentity.Validator.Outcome.{go_on}
use uidentity.Validator.Stages.{
  Header, find_key, check_signature, check_issuer, check_expiry, check_not_before, check_audience,
  check_azp, match_audience, match_azp, add_int64, not_before, build_context, check_claims,
}
use uidentity.Validator.Keys.{HttpClient, JwksCache, cached_keys}
use uidentity.Validator.Validate.{finish, accept, front, back, validate, Readings}
use uidentity.Validator.Validate.CacheUse.{fresh_keys}

-- An optional claim of the time from which on a token is good.
abbrev pub IsStarted : AuthConfig → ℤ → Option ℤ → Type 0
IsStarted cfg now none = Unit {0}
IsStarted cfg now (some nbf) =
    (latest : ℤ) × (add_int64 now cfg.clock_skew_seconds ≡ ok latest) × (nbf ≤ℤ latest)

-- Claims that pass every check at a time, where no sum overflows.
pub record PassingClaims (fuel : ℕ) (cfg : AuthConfig) (now : ℤ) (payload : Bytes) : Type 0 where
  pub issuer_given : cfg.expected_issuer ≢ []
  pub issuer : extract_json_string fuel payload (codes "iss") ≡ ok (some cfg.expected_issuer)
  pub expiry :
      (exp : ℤ) × (limit : ℤ) × (extract_json_int64 fuel payload (codes "exp") ≡ ok (some exp))
      × (add_int64 exp cfg.clock_skew_seconds ≡ ok limit)
      × (now ≤ℤ limit)
  pub not_before :
      (found : Option ℤ) × (extract_json_int64 fuel payload (codes "nbf") ≡ ok found)
      × IsStarted cfg now found
  pub audience :
      cfg.require_audience ≡ true
      → (values : List Bytes) × (extract_audience_values fuel payload ≡ ok values)
        × (contains_string values cfg.expected_audience ≡ true)
  pub azp : cfg.expected_azp ≢ [] → string_or fuel payload (codes "azp") [] ≡ ok cfg.expected_azp

ltb_ℤ-le : (a b : ℤ) → b ≤ℤ a → ltb_ℤ a b ≡ false
ltb_ℤ-le a b h = ground arith

module _ (fuel : ℕ) (cfg : AuthConfig) (now : ℤ) (payload : Bytes) where
  issuer_passes :
      cfg.expected_issuer ≢ []
      → extract_json_string fuel payload (codes "iss") ≡ ok (some cfg.expected_issuer)
      → check_issuer fuel cfg payload ≡ go_on tt
  unfolding check_issuer
  issuer_passes ne h =
      ground (arith, h, is_empty-ne cfg.expected_issuer ne, eq_bytes_refl cfg.expected_issuer)

  expiry_passes :
      (exp limit : ℤ)
      → extract_json_int64 fuel payload (codes "exp") ≡ ok (some exp)
      → add_int64 exp cfg.clock_skew_seconds ≡ ok limit
      → now ≤ℤ limit
      → check_expiry fuel cfg now payload ≡ go_on tt
  unfolding check_expiry
  expiry_passes exp limit h sum le = ground (arith, h, sum, ltb_ℤ-le limit now le)

  started_passes :
      (found : Option ℤ) → IsStarted cfg now found → not_before cfg now found ≡ go_on tt
  unfolding not_before
  started_passes none h = refl
  started_passes (some nbf) (latest, sum, le) = ground (arith, sum, ltb_ℤ-le latest nbf le)

  not_before_passes :
      (found : Option ℤ)
      → extract_json_int64 fuel payload (codes "nbf") ≡ ok found
      → IsStarted cfg now found
      → check_not_before fuel cfg now payload ≡ go_on tt
  unfolding check_not_before
  not_before_passes found h s = ground (arith, h, started_passes found s)

  match_audience_passes :
      (values : List Bytes)
      → extract_audience_values fuel payload ≡ ok values
      → contains_string values cfg.expected_audience ≡ true
      → match_audience fuel cfg payload ≡ go_on tt
  unfolding match_audience
  match_audience_passes values h c = ground (arith, h, c)

  match_azp_passes :
      string_or fuel payload (codes "azp") [] ≡ ok cfg.expected_azp
      → match_azp fuel cfg payload ≡ go_on tt
  unfolding match_azp
  match_azp_passes h = ground (arith, h, eq_bytes_refl cfg.expected_azp)

  audience_passes :
      (cfg.require_audience ≡ true → match_audience fuel cfg payload ≡ go_on tt)
      → check_audience fuel cfg payload ≡ go_on tt
  unfolding check_audience
  audience_passes h = elim (Bool-cases cfg.require_audience) [
    | inl on ↦ ground (arith, h on)
    | inr off ↦ ground arith
  ]

  azp_cases :
      (expected : Bytes)
      → cfg.expected_azp ≡ expected
      → (cfg.expected_azp ≢ [] → match_azp fuel cfg payload ≡ go_on tt)
      → check_azp fuel cfg payload ≡ go_on tt
  unfolding check_azp
  azp_cases [] e h = ground arith
  azp_cases (c ∷ s) e h =
      let given : cfg.expected_azp ≢ [] = λ n. cons-ne-nil c s (sym e ∙ n) in
      ground (arith, h given)

  azp_passes :
      (cfg.expected_azp ≢ [] → match_azp fuel cfg payload ≡ go_on tt)
      → check_azp fuel cfg payload ≡ go_on tt
  azp_passes h = azp_cases cfg.expected_azp refl h

  claims_pass :
      (context : RequestContext)
      → PassingClaims fuel cfg now payload
      → build_context fuel payload ≡ go_on context
      → check_claims fuel cfg now payload ≡ go_on context
  unfolding check_claims
  claims_pass context p b =
      let (exp, limit, e, sum, le) = p.expiry in
      let (found, n, s) = p.not_before in
      ground (
        arith,
        issuer_passes p.issuer_given p.issuer,
        expiry_passes exp limit e sum le,
        not_before_passes found n s,
        audience_passes
            (λ on. let (values, v, c) = p.audience on in match_audience_passes values v c),
        azp_passes (λ given. match_azp_passes (p.azp given)),
        b,
      )

signature_passes :
    (ssl : Openssl) (keys : List Jwk) (header : Header) (key : Jwk)
    → find_key keys header.kid ≡ some key
    → verify_rsa_signature ssl key header.alg header.jwt.signing_input header.jwt.signature ≡ true
    → check_signature ssl keys header ≡ go_on tt
unfolding check_signature
signature_passes ssl keys header key f v = ground (arith, f, v)

back_passes :
    (fuel : ℕ) (cfg : AuthConfig) (ssl : Openssl) (now : ℤ) (keys : List Jwk) (header : Header)
    (context : RequestContext)
    → check_signature ssl keys header ≡ go_on tt
    → check_claims fuel cfg now header.jwt.payload_json ≡ go_on context
    → finish (back fuel cfg ssl now keys header) ≡ ok (accept context)
unfolding finish back
back_passes fuel cfg ssl now keys header context s c = ground (arith, s, c)

-- While the cache is fresh, a token whose form and configuration pass, whose key id names a cached key that
-- verifies its signature, and whose claims pass at the time of the call with no sum out of range, is
-- accepted with the context that its payload gives, and nothing is sent.
pub validate_accepts :
    {W : Type 0} (send : HttpClient W) (fuel : ℕ) (cfg : AuthConfig) (ssl : Openssl)
    (clock : Readings) (token : Bytes) (before : W × JwksCache) (header : Header) (key : Jwk)
    (context : RequestContext)
    → front fuel cfg token ≡ go_on header
    → cached_keys clock.steady_at_cache before.1 ≢ []
    → find_key (cached_keys clock.steady_at_cache before.1) header.kid ≡ some key
    → verify_rsa_signature ssl key header.alg header.jwt.signing_input header.jwt.signature ≡ true
    → PassingClaims fuel cfg clock.system header.jwt.payload_json
    → build_context fuel header.jwt.payload_json ≡ go_on context
    → validate send fuel cfg ssl clock token before ≡ (before, ok (accept context))
unfolding validate
validate_accepts send fuel cfg ssl clock token before header key context e n f v p b = ground (
  arith,
  e,
  fresh_keys send fuel cfg ssl clock header before _ refl n,
  back_passes fuel cfg ssl clock.system _ header context (signature_passes ssl _ header key f v)
      (claims_pass fuel cfg clock.system header.jwt.payload_json context p b),
)
