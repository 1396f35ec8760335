-- ===== src/Validator/Validate.antt =====
-- AccessTokenValidator::validate: the stages with the cache and the network between them.
pub mod Soundness
pub mod CacheUse
pub mod Rotation
pub mod Accepts
pub mod Hang
use uidentity.Base.{
  ℕ, Bool, true, false, List, [], ◌∷◌, Option, none, some, Bytes, codes, Result, ok, err, Error,
}
use uidentity.Base.Int.{ℤ}
use uidentity.Http.{Request, Response, AuthConfig, RequestContext}
use uidentity.Jwt.Keys.{Jwk}
use uidentity.Jwt.Signature.{Openssl}
use uidentity.Validator.Outcome.{
  Outcome, go_on, return, abort, ◌>>=◌, ◌>>◌, JwtValidationResult, failure,
}
use uidentity.Validator.Stages.{check_config, Header, read_header, check_signature, check_claims}
use uidentity.Validator.Keys.{
  HttpClient, JwksCache, Fetched, fetched, not_fetched, cached_keys, refresh_jwks,
}

-- The clocks as one call reads them: the steady clock at the cache and at a refresh, and the system
-- clock in seconds.
pub record Readings : Type 0 where
  pub steady_at_cache : ℤ
  pub steady_at_refresh : ℤ
  pub system : ℤ

unfoldable pub accept : RequestContext → JwtValidationResult
accept context = record { accepted = true; http_status = 200; error = []; context = context }

-- The result of a run of stages.
unfoldable pub finish : Outcome RequestContext → Result JwtValidationResult
unfolding accept
finish (go_on context) = ok (accept context)
finish (return result) = ok result
finish (abort e) = err e

-- What can be said of a token before any key is looked up.
unfoldable pub front : ℕ → AuthConfig → Bytes → Outcome Header
front fuel cfg access_token = do check_config cfg; read_header fuel access_token

-- What is checked once there are keys.
unfoldable pub back : ℕ → AuthConfig → Openssl → ℤ → List Jwk → Header → Outcome RequestContext
back fuel cfg ssl now keys header = do
  check_signature ssl keys header
  check_claims fuel cfg now header.jwt.payload_json

unfoldable pub with_fetched :
    ℕ → AuthConfig → Openssl → ℤ → Header → Result Fetched → Result JwtValidationResult
with_fetched fuel cfg ssl now header (err e) = err e
with_fetched fuel cfg ssl now header (ok (not_fetched status error)) = ok (failure status error)
with_fetched fuel cfg ssl now header (ok (fetched keys)) =
    finish (back fuel cfg ssl now keys header)

module _ {W : Type 0} (send : HttpClient W) (fuel : ℕ) (cfg : AuthConfig) (ssl : Openssl) where
  -- The keys: from the cache, or else from the key set's address.
  unfoldable pub with_keys :
      Readings → Header → W × JwksCache → (W × JwksCache) × Result JwtValidationResult
  with_keys clock header (w, cache) = elim (cached_keys clock.steady_at_cache cache) [
    | k ∷ ks ↦ ((w, cache), finish (back fuel cfg ssl clock.system (k ∷ ks) header))
    | [] ↦
        let (after, result) = refresh_jwks send fuel cfg clock.steady_at_refresh (w, cache) in
        (after, with_fetched fuel cfg ssl clock.system header result)
  ]

  unfoldable pub validate :
      Readings → Bytes → W × JwksCache → (W × JwksCache) × Result JwtValidationResult
  validate clock access_token before = elim (front fuel cfg access_token) [
    | go_on header ↦ with_keys clock header before
    | return result ↦ (before, ok result)
    | abort e ↦ (before, err e)
  ]
