-- ===== src/Validator/Tasks/Alone.antt =====
-- A call whose moves nothing comes between.
use uidentity.Base.{
  ℕ, zero, suc, ◌∙◌, List, [], ◌∷◌, none, Bytes, Result, ok, err, ◌≡◌, refl, arith,
}
use uidentity.Http.{AuthConfig, Request}
use uidentity.Oidc.Requests.{make_json_get}
use uidentity.Jwt.Keys.{Jwk}
use uidentity.Jwt.Signature.{Openssl}
use uidentity.Validator.Outcome.{Outcome, go_on, return, abort}
use uidentity.Validator.Stages.{Header}
use uidentity.Validator.Keys.{HttpClient, JwksCache, cached_keys, refresh_jwks}
use uidentity.Validator.Validate.{front, with_keys, with_fetched, validate, Readings}
use uidentity.Validator.Tasks.{Task, called, fetching, received, done, look_up, receive, store}

module _ {W : Type 0} (send : HttpClient W) (fuel : ℕ) (cfg : AuthConfig) (ssl : Openssl)
    (clock : Readings) where
  -- One move of a call.
  unfoldable pub move : Task → W × JwksCache → (W × JwksCache) × Task
  move (called token) (w, cache) =
      ((w, cache), look_up send fuel cfg ssl clock.steady_at_cache clock.system token cache)
  move (fetching token header) (w, cache) =
      let (after, task) = receive send fuel cfg ssl token header w in ((after, cache), task)
  move (received token header response) (w, cache) =
      let (after, task) =
        store send fuel cfg ssl clock.steady_at_refresh clock.system token header response cache in
      ((w, after), task)
  move (done token result) before = (before, done token result)

  unfoldable pub moves : ℕ → Task → W × JwksCache → (W × JwksCache) × Task
  moves zero task before = (before, task)
  moves (suc n) task before = let (after, next) = move task before in moves n next after

  fetches :
      (token : Bytes) (header : Header) (before : W × JwksCache) (r : Result Request)
      → make_json_get cfg.jwks_url none ≡ r
      → moves 2 (fetching token header) before ≡ (
          let after = refresh_jwks send fuel cfg clock.steady_at_refresh before in
          (after.0, done token (with_fetched fuel cfg ssl clock.system header after.1)))
  unfolding moves move receive store refresh_jwks with_fetched
  fetches token header (w, cache) (err e) h = ground arith
  fetches token header (w, cache) (ok request) h = ground arith

  looked_up :
      (token : Bytes) (header : Header) (before : W × JwksCache) (keys : List Jwk)
      → front fuel cfg token ≡ go_on header
      → cached_keys clock.steady_at_cache before.1 ≡ keys
      → moves 3 (called token) before ≡ (
          let after = with_keys send fuel cfg ssl clock header before in
          (after.0, done token after.1))
  unfolding moves move look_up with_keys
  looked_up token header (w, cache) (k ∷ ks) f h = ground arith
  looked_up token header (w, cache) [] f h = ground (arith, fetches token header (w, cache) _ refl)

  by_front :
      (token : Bytes) (before : W × JwksCache) (m : Outcome Header)
      → front fuel cfg token ≡ m
      → moves 3 (called token) before ≡ (
          let after = validate send fuel cfg ssl clock token before in
          (after.0, done token after.1))
  unfolding moves move look_up validate
  by_front token (w, cache) (return r) h = ground arith
  by_front token (w, cache) (abort e) h = ground arith
  by_front token (w, cache) (go_on header) h =
      looked_up token header (w, cache) _ h refl ∙ ground arith

  -- A call that is left alone is at its end after three moves, with the result, the network and the cache
  -- that `validate` gives.
  pub moves-validate :
      (token : Bytes) (before : W × JwksCache)
      → moves 3 (called token) before ≡ (
          let after = validate send fuel cfg ssl clock token before in
          (after.0, done token after.1))
  moves-validate token before = by_front token before _ refl
