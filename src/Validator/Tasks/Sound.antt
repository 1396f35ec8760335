-- ===== src/Validator/Tasks/Sound.antt =====
-- What holds of a call after each of its moves.
use uidentity.Base.{
  ℕ, Bool, true, false, List, [], ◌∷◌, none, Bytes, Result, ok, err, ◌≡◌, refl, arith, ◌⊎◌, inl,
  inr, Bool-cases,
}
use uidentity.Base.Int.{ℤ}
use uidentity.Http.{AuthConfig, Request, Response}
use uidentity.Oidc.Requests.{make_json_get}
use uidentity.Jwt.Keys.{Jwk, extract_jwks}
use uidentity.Jwt.Signature.{Openssl}
use uidentity.Validator.Outcome.{Outcome, go_on, return, abort, JwtValidationResult, failure}
use uidentity.Validator.Stages.{Header}
use uidentity.Validator.Keys.{
  HttpClient, JwksCache, cached_keys, store_keys, store_parsed, effective_status, is_success,
}
use uidentity.Validator.Front.{GoodConfig, GoodHeader}
use uidentity.Validator.Rejects.{Rejects, refuses}
use uidentity.Validator.Validate.{front, back, finish, with_fetched}
use uidentity.Validator.Validate.Soundness.{Passed, back-Passed, front_sound}
use uidentity.Validator.Tasks.{Task, called, fetching, received, done, look_up, receive, store}

module _ {W : Type 0} (send : HttpClient W) (fuel : ℕ) (cfg : AuthConfig) (ssl : Openssl) where
  -- A response to the request for the key set.
  abbrev pub Answers : Response → Type 0
  Answers response =
      (request : Request) × (w : W) × (make_json_get cfg.jwks_url none ≡ ok request)
      × ((send request w).1 ≡ response)

  -- Keys that a successful response gave.
  abbrev pub Published : List Jwk → Type 0
  Published keys =
      (response : Response) × Answers response
      × (is_success (effective_status response) ≡ true)
      × (extract_jwks fuel response.body ≡ ok keys)

  abbrev pub HoldsPublished : JwksCache → Type 0
  HoldsPublished cache = (cache.keys ≡ []) ⊎ Published cache.keys

  -- What a token has passed that is accepted at a time.
  abbrev pub Accepted : ℤ → Bytes → JwtValidationResult → Type 0
  Accepted now token result =
      (header : Header) × (keys : List Jwk) × GoodConfig cfg
      × GoodHeader fuel token header
      × Published keys
      × Passed fuel cfg ssl now keys header result

  -- What holds of a call whose last reading of the system clock was `now`.
  abbrev pub IsSound : ℤ → Task → Type 0
  IsSound now (called token) = Unit {0}
  IsSound now (fetching token header) = front fuel cfg token ≡ go_on header
  IsSound now (received token header response) =
      (front fuel cfg token ≡ go_on header) × Answers response
  IsSound now (done token (err e)) = Unit {0}
  IsSound now (done token (ok result)) = (result.accepted ≡ false) ⊎ Accepted now token result

  finished-IsSound :
      (token : Bytes) (header : Header) (keys : List Jwk) (now : ℤ) (r : Result JwtValidationResult)
      → front fuel cfg token ≡ go_on header
      → Published keys
      → finish (back fuel cfg ssl now keys header) ≡ r
      → IsSound now (done token r)
  finished-IsSound token header keys now (err e) f p h = tt
  finished-IsSound token header keys now (ok result) f p h = elim (Bool-cases result.accepted) [
    | inl t ↦
        let (good, read) = front_sound fuel cfg token header f in
        inr (header, keys, good, read, p, back-Passed fuel cfg ssl now keys header result h t)
    | inr refused ↦ inl refused
  ]

  cached_keys-Published :
      (steady : ℤ) (cache : JwksCache) (k : Jwk) (ks : List Jwk)
      → HoldsPublished cache
      → cached_keys steady cache ≡ k ∷ ks
      → Published (k ∷ ks)
  unfolding cached_keys
  cached_keys-Published steady cache k ks (inl e) h = ground arith
  cached_keys-Published steady cache k ks (inr p) h =
      let same : cache.keys ≡ k ∷ ks = ground arith in rw (← same) p

  looked_up-IsSound :
      (steady now : ℤ) (token : Bytes) (header : Header) (cache : JwksCache) (keys : List Jwk)
      → HoldsPublished cache
      → front fuel cfg token ≡ go_on header
      → cached_keys steady cache ≡ keys
      → IsSound now (look_up send fuel cfg ssl steady now token cache)
  looked_up-IsSound steady now token header cache [] p f h =
      let there : look_up send fuel cfg ssl steady now token cache ≡ fetching token header =
        unfold look_up in ground arith in
      rw there f
  looked_up-IsSound steady now token header cache (k ∷ ks) p f h =
      let there : look_up send fuel cfg ssl steady now token cache
          ≡ done token (finish (back fuel cfg ssl now (k ∷ ks) header)) =
        unfold look_up in ground arith in
      rw there (
        finished-IsSound token header (k ∷ ks) now _ f (cached_keys-Published steady cache k ks p h)
          refl)

  pub look_up-IsSound :
      (steady now : ℤ) (token : Bytes) (cache : JwksCache) (m : Outcome Header)
      → HoldsPublished cache
      → Rejects m
      → front fuel cfg token ≡ m
      → IsSound now (look_up send fuel cfg ssl steady now token cache)
  look_up-IsSound steady now token cache (go_on header) p r h =
      looked_up-IsSound steady now token header cache _ p h refl
  look_up-IsSound steady now token cache (abort e) p r h =
      let there : look_up send fuel cfg ssl steady now token cache ≡ done token (err e) =
        unfold look_up in ground arith in
      rw there tt
  look_up-IsSound steady now token cache (return result) p (refuses _ f) h =
      let there : look_up send fuel cfg ssl steady now token cache ≡ done token (ok result) =
        unfold look_up in ground arith in
      rw there (inl f)

  pub receive-IsSound :
      (now : ℤ) (token : Bytes) (header : Header) (w : W) (r : Result Request)
      → front fuel cfg token ≡ go_on header
      → make_json_get cfg.jwks_url none ≡ r
      → IsSound now (receive send fuel cfg ssl token header w).1
  receive-IsSound now token header w (err e) f h =
      let there : (receive send fuel cfg ssl token header w).1 ≡ done token (err e) =
        unfold receive in ground arith in
      rw there tt
  receive-IsSound now token header w (ok request) f h =
      let there : (receive send fuel cfg ssl token header w).1
          ≡ received token header (send request w).1 =
        unfold receive in ground arith in
      rw there (f, (request, w, h, refl))

  pub store-IsSound :
      (steady now : ℤ) (token : Bytes) (header : Header) (response : Response) (cache : JwksCache)
      (b : Bool) (r : Result (List Jwk))
      → HoldsPublished cache
      → front fuel cfg token ≡ go_on header
      → Answers response
      → is_success (effective_status response) ≡ b
      → extract_jwks fuel response.body ≡ r
      → HoldsPublished (store send fuel cfg ssl steady now token header response cache).0
        × IsSound now (store send fuel cfg ssl steady now token header response cache).1
  unfolding store store_keys store_parsed with_fetched failure
  store-IsSound steady now token header response cache false r p f a s h =
      rw (s, store) (p, inl refl)
  store-IsSound steady now token header response cache true (err e) p f a s h =
      rw (s, h, store) (p, tt)
  store-IsSound steady now token header response cache true (ok []) p f a s h =
      rw (s, h, store) (p, inl refl)
  store-IsSound steady now token header response cache true (ok (k ∷ ks)) p f a s h =
      let published : Published (k ∷ ks) = (response, a, s, h) in
      rw (s, h, store)
        (inr published, finished-IsSound token header (k ∷ ks) now _ f published refl)
