-- ===== src/Validator/Validate/CacheUse.antt =====
-- When `validate` asks for the key set, and when the cache answers.
use uidentity.Base.{
  ℕ, true, List, [], ◌∷◌, Bytes, Result, ok, err, ◌≡◌, ◌≢◌, ◌⊎◌, inl, inr, if◌then◌else◌, refl, sym,
  arith, Bool-cases,
}
use mathlib.Core.List.{cons-ne-nil}
use uidentity.Base.Int.{ℤ, ◌+ℤ◌, ltb_ℤ}
use uidentity.Http.{AuthConfig, Response}
use uidentity.Jwt.Keys.{Jwk, extract_jwks}
use uidentity.Jwt.Signature.{Openssl}
use uidentity.Validator.Outcome.{Outcome, go_on, return, abort}
use uidentity.Validator.Stages.{Header}
use uidentity.Validator.Keys.{
  HttpClient, JwksCache, fetched, cached_keys, store_keys, store_parsed, effective_status,
  is_success,
}
use uidentity.Validator.Validate.{front, back, finish, with_keys, validate, Readings}

module _ {W : Type 0} (send : HttpClient W) (fuel : ℕ) (cfg : AuthConfig) (ssl : Openssl)
    (clock : Readings) where
  pub fresh_keys :
      (header : Header) (before : W × JwksCache) (keys : List Jwk)
      → cached_keys clock.steady_at_cache before.1 ≡ keys
      → keys ≢ []
      → with_keys send fuel cfg ssl clock header before
        ≡ (before, finish (back fuel cfg ssl clock.system keys header))
  unfolding with_keys
  fresh_keys header before [] e n = absurd (n refl)
  fresh_keys header before (k ∷ ks) e n = ground arith

  after_front :
      (token : Bytes) (before : W × JwksCache) (m : Outcome Header)
      → front fuel cfg token ≡ m
      → ((header : Header) → m ≢ go_on header) ⊎ (cached_keys clock.steady_at_cache before.1 ≢ [])
      → (validate send fuel cfg ssl clock token before).0 ≡ before
  unfolding validate
  after_front token before (go_on header) e (inl n) = absurd (n header refl)
  after_front token before (go_on header) e (inr n) =
      ground (arith, fresh_keys header before _ refl n)
  after_front token before (return r) e h = ground arith
  after_front token before (abort x) e h = ground arith

  -- A token that is refused by its form or by the configuration, and any token while the cache is
  -- fresh, leave the network and the cache as they were: no key set is asked for.
  validate_no_request :
      (token : Bytes) (before : W × JwksCache)
      → ((header : Header) → front fuel cfg token ≢ go_on header)
        ⊎ (cached_keys clock.steady_at_cache before.1 ≢ [])
      → (validate send fuel cfg ssl clock token before).0 ≡ before
  validate_no_request token before h = after_front token before _ refl h

store_parsed-cached_keys :
    (cfg : AuthConfig) (now t : ℤ) (cache : JwksCache) (r : Result (List Jwk)) (keys : List Jwk)
    → (store_parsed cfg now cache r).1 ≡ ok (fetched keys)
    → (r ≡ ok keys)
      × (keys ≢ [])
      × (cached_keys t (store_parsed cfg now cache r).0
          ≡ (if ltb_ℤ t (now +ℤ cfg.jwks_cache_ttl) then keys else []))
unfolding store_parsed cached_keys
store_parsed-cached_keys cfg now t cache (err e) keys h = cc
store_parsed-cached_keys cfg now t cache (ok []) keys h = cc
store_parsed-cached_keys cfg now t cache (ok (k ∷ ks)) keys h =
    let same : (k ∷ ks) ≡ keys = cc in rw (sym same) (refl, cons-ne-nil k ks, refl)

-- The keys of a successful fetch are those of a response with a status in 200 to 299, are at least one,
-- and are served from the cache until the lifetime that is configured has passed, and not longer.
pub store_keys-cached_keys :
    (fuel : ℕ) (cfg : AuthConfig) (now t : ℤ) (response : Response) (cache : JwksCache)
    (keys : List Jwk)
    → (store_keys fuel cfg now response cache).1 ≡ ok (fetched keys)
    → (is_success (effective_status response) ≡ true)
      × (extract_jwks fuel response.body ≡ ok keys)
      × (keys ≢ [])
      × (cached_keys t (store_keys fuel cfg now response cache).0
          ≡ (if ltb_ℤ t (now +ℤ cfg.jwks_cache_ttl) then keys else []))
unfolding store_keys
store_keys-cached_keys fuel cfg now t response cache keys h =
    elim (Bool-cases (is_success (effective_status response))) [
      | inl e ↦
          let (r, n, c) =
            store_parsed-cached_keys cfg now t cache (extract_jwks fuel response.body) keys
              (rw (e, store_keys) at h) in
          (e, r, n, rw (e, store_keys) c)
      | inr e ↦ ground arith
    ]
