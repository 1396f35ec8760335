-- ===== src/Validator/Keys.antt =====
-- cached_keys and refresh_jwks. The mutex makes each a step; the HTTP client is a parameter.
use uidentity.Base.{
  ℕ, Bool, not, ◌&&◌, List, [], ◌∷◌, none, Bytes, codes, is_empty, ltb, leb, if◌then◌else◌, Result,
  ok, err,
}
use uidentity.Base.Int.{ℤ, ◌+ℤ◌, ltb_ℤ}
use uidentity.Http.{Request, Response, AuthConfig}
use uidentity.Jwt.Keys.{Jwk, extract_jwks}
use uidentity.Oidc.Requests.{make_json_get}

-- Sends a request over the state of the network, and has the response.
abbrev pub HttpClient : Type 0 → Type 0
HttpClient W = Request → W → W × Response

pub record JwksCache : Type 0 where
  pub keys : List Jwk
  pub expires_at : ℤ

unfoldable pub cached_keys : ℤ → JwksCache → List Jwk
cached_keys now cache =
    if not (is_empty cache.keys) && ltb_ℤ now cache.expires_at then cache.keys else []

pub data Fetched : Type 0 where
  fetched : List Jwk → Fetched
  not_fetched : ℕ → Bytes → Fetched

-- `status_code > 0 ? status_code : 502`
unfoldable pub effective_status : Response → ℕ
effective_status response = if ltb 0 response.status_code then response.status_code else 502

unfoldable pub is_success : ℕ → Bool
is_success status = leb 200 status && ltb status 300

-- What the keys of a response with status 2xx make of the cache: `now` is read when they are stored.
unfoldable pub store_parsed :
    AuthConfig → ℤ → JwksCache → Result (List Jwk) → JwksCache × Result Fetched
store_parsed cfg now cache (err e) = (cache, err e)
store_parsed cfg now cache (ok []) = (cache, ok (not_fetched 502 (codes "jwks_parse_failed")))
store_parsed cfg now cache (ok (k ∷ ks)) =
    (record { keys = k ∷ ks; expires_at = now +ℤ cfg.jwks_cache_ttl }, ok (fetched (k ∷ ks)))

unfoldable pub store_keys : ℕ → AuthConfig → ℤ → Response → JwksCache → JwksCache × Result Fetched
store_keys fuel cfg now response cache =
    if is_success (effective_status response)
    then store_parsed cfg now cache (extract_jwks fuel response.body)
    else (cache, ok (not_fetched 502 (codes "jwks_fetch_failed")))

module _ {W : Type 0} (send : HttpClient W) where
  unfoldable pub refresh_jwks :
      ℕ → AuthConfig → ℤ → W × JwksCache → (W × JwksCache) × Result Fetched
  refresh_jwks fuel cfg now (w, cache) = elim (make_json_get cfg.jwks_url none) [
    | err e ↦ ((w, cache), err e)
    | ok request ↦
        let (w', response) = send request w in
        let (cache', result) = store_keys fuel cfg now response cache in ((w', cache'), result)
  ]
