-- ===== src/Validator/Validate/Rotation.antt =====
-- Tokens under a key that the cache does not hold, such as one that is new since the last fetch.
use uidentity.Base.{
  ℕ, true, false, Bool, List, [], none, Bytes, codes, Result, ok, ◌≡◌, ◌≢◌, if◌then◌else◌, refl,
  ◌∙◌, arith,
}
use uidentity.Base.Int.{ℤ, ◌+ℤ◌, ltb_ℤ}
use uidentity.Http.{AuthConfig, Response}
use uidentity.Jwt.Keys.{Jwk}
use uidentity.Jwt.Signature.{Openssl}
use uidentity.Validator.Outcome.{go_on, failure, JwtValidationResult}
use uidentity.Validator.Stages.{Header, find_key, check_signature}
use uidentity.Validator.Keys.{HttpClient, JwksCache, fetched, cached_keys, store_keys, refresh_jwks}
use uidentity.Validator.Validate.{front, back, finish, with_keys, with_fetched, validate, Readings}
use uidentity.Validator.Validate.CacheUse.{fresh_keys, store_keys-cached_keys}

module _ {W : Type 0} (send : HttpClient W) (fuel : ℕ) (cfg : AuthConfig) (ssl : Openssl)
    (clock : Readings) where
  unknown_key :
      (keys : List Jwk) (header : Header)
      → find_key keys header.kid ≡ none
      → finish (back fuel cfg ssl clock.system keys header)
        ≡ ok (failure 401 (codes "jwks_key_not_found"))
  unfolding finish back check_signature
  unknown_key keys header h = ground arith

  -- A new fetch, and what comes of the token with its keys.
  abbrev pub fetch_again : Header → W × JwksCache → (W × JwksCache) × Result JwtValidationResult
  fetch_again header before =
      let after = refresh_jwks send fuel cfg clock.steady_at_refresh before in
      (after.0, with_fetched fuel cfg ssl clock.system header after.1)

  no_keys :
      (header : Header) (before : W × JwksCache)
      → cached_keys clock.steady_at_cache before.1 ≡ []
      → with_keys send fuel cfg ssl clock header before ≡ fetch_again header before
  unfolding with_keys
  no_keys header (w, cache) h = ground arith

  by_age :
      (b : Bool) (header : Header) (keys : List Jwk) (before : W × JwksCache)
      → keys ≢ []
      → find_key keys header.kid ≡ none
      → cached_keys clock.steady_at_cache before.1 ≡ (if b then keys else [])
      → with_keys send fuel cfg ssl clock header before ≡ (
          if b
          then (before, ok (failure 401 (codes "jwks_key_not_found")))
          else fetch_again header before)
  by_age true header keys before n f h =
      fresh_keys send fuel cfg ssl clock header before keys h n
      ∙ rw (unknown_key keys header f) refl
  by_age false header keys before n f h = no_keys header before h

  behind_front :
      (token : Bytes) (header : Header) (before : W × JwksCache)
      → front fuel cfg token ≡ go_on header
      → validate send fuel cfg ssl clock token before
        ≡ with_keys send fuel cfg ssl clock header before
  unfolding validate
  behind_front token header before e = ground arith

  -- After a successful fetch, a well-formed token under a key that it did not bring, such as one that the
  -- server has had since, is refused with jwks_key_not_found and without a request until the configured
  -- lifetime has passed since the keys were stored; from then on the key set is asked for again, and the
  -- token is judged with the keys of the new response.
  pub validate-store_keys :
      (now : ℤ) (response : Response) (keys : List Jwk) (token : Bytes) (header : Header) (w : W)
      (cache : JwksCache)
      → (store_keys fuel cfg now response cache).1 ≡ ok (fetched keys)
      → front fuel cfg token ≡ go_on header
      → find_key keys header.kid ≡ none
      → let before : W × JwksCache = (w, (store_keys fuel cfg now response cache).0) in
        validate send fuel cfg ssl clock token before ≡ (
          if ltb_ℤ clock.steady_at_cache (now +ℤ cfg.jwks_cache_ttl)
          then (before, ok (failure 401 (codes "jwks_key_not_found")))
          else fetch_again header before)
  validate-store_keys now response keys token header w cache s e f =
      let stored =
        store_keys-cached_keys fuel cfg now clock.steady_at_cache response cache keys s in
      behind_front token header (w, (store_keys fuel cfg now response cache).0) e
      ∙ by_age _ header keys (w, (store_keys fuel cfg now response cache).0) stored.2 f stored.3
