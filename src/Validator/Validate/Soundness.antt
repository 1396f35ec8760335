-- ===== src/Validator/Validate/Soundness.antt =====
-- What an accepted token has passed.
use uidentity.Base.{
  ℕ, true, List, [], ◌∷◌, some, Bytes, Result, ok, err, ◌≡◌, ◌≢◌, refl, ◌∙◌, sym, ap, arith, inl,
  inr, ◌⊎◌,
}
use uidentity.Base.Int.{ℤ}
use uidentity.Http.{AuthConfig, RequestContext}
use uidentity.Jwt.Keys.{Jwk}
use uidentity.Jwt.Signature.{Openssl, verify_rsa_signature}
use mathlib.Core.Bool.{false≢true}
use mathlib.Core.List.{cons-ne-nil}
use uidentity.Validator.Rejects.{
  Rejects, refuses, Rejects-bind, check_signature-Rejects, check_claims-Rejects,
  check_config-Rejects, read_header-Rejects,
}
use uidentity.Validator.Validate.{
  finish, accept, front, back, with_fetched, with_keys, validate, Readings,
}
use uidentity.Validator.Keys.{
  HttpClient, JwksCache, Fetched, fetched, not_fetched, cached_keys, refresh_jwks,
}
use uidentity.Validator.Outcome.{
  JwtValidationResult, failure, Outcome, go_on, return, abort, >>=-eq-go_on,
}
use uidentity.Validator.Stages.{
  Header, read_header, check_config, find_key, check_signature, build_context, check_claims,
}
use uidentity.Validator.Front.{GoodConfig, GoodHeader, check_config_sound, read_header_sound}
use uidentity.Validator.Claims.{GoodClaims, check_claims_sound, check_signature_sound}

finish-accepted :
    (m : Outcome RequestContext) (result : JwtValidationResult)
    → Rejects m
    → finish m ≡ ok result
    → result.accepted ≡ true
    → (context : RequestContext) × (m ≡ go_on context) × (result ≡ accept context)
unfolding finish
finish-accepted (go_on context) result r h t = (context, refl, cc)
finish-accepted (return refused) result (refuses _ f) h t =
    let same : refused ≡ result = cc in
    absurd (false≢true (sym f ∙ ap (λ (x : JwtValidationResult). x.accepted) same ∙ t))
finish-accepted (abort e) result r h t = cc

-- What an accepted token has passed, with the keys that were used.
pub record Passed (fuel : ℕ) (cfg : AuthConfig) (ssl : Openssl) (now : ℤ) (keys : List Jwk)
    (header : Header) (result : JwtValidationResult) : Type 0 where
  pub signed :
      (key : Jwk) × (find_key keys header.kid ≡ some key)
      × (verify_rsa_signature ssl key header.alg header.jwt.signing_input header.jwt.signature
          ≡ true)
  pub claims : GoodClaims fuel cfg now header.jwt.payload_json
  pub context :
      (c : RequestContext) × (build_context fuel header.jwt.payload_json ≡ go_on c)
      × (result ≡ accept c)

back-Rejects :
    (fuel : ℕ) (cfg : AuthConfig) (ssl : Openssl) (now : ℤ) (keys : List Jwk) (header : Header)
    → Rejects (back fuel cfg ssl now keys header)
unfolding back
back-Rejects fuel cfg ssl now keys header =
    Rejects-bind (check_signature-Rejects ssl keys header)
      λ _. check_claims-Rejects fuel cfg now header.jwt.payload_json

pub back-Passed :
    (fuel : ℕ) (cfg : AuthConfig) (ssl : Openssl) (now : ℤ) (keys : List Jwk) (header : Header)
    (result : JwtValidationResult)
    → finish (back fuel cfg ssl now keys header) ≡ ok result
    → result.accepted ≡ true
    → Passed fuel cfg ssl now keys header result
unfolding back
back-Passed fuel cfg ssl now keys header result h t =
    let (c, e, r) = finish-accepted _ result (back-Rejects fuel cfg ssl now keys header) h t in
    let (_, s, k) =
      >>=-eq-go_on (check_signature ssl keys header)
        (λ _. check_claims fuel cfg now header.jwt.payload_json) e in
    let (good, built) = check_claims_sound fuel cfg now header.jwt.payload_json k in
    record {
      signed = check_signature_sound ssl keys header s;
      claims = good;
      context = (c, built, r);
    }

pub front-Rejects : (fuel : ℕ) (cfg : AuthConfig) (token : Bytes) → Rejects (front fuel cfg token)
unfolding front
front-Rejects fuel cfg token =
    Rejects-bind (check_config-Rejects cfg) λ _. read_header-Rejects fuel token

pub front_sound :
    (fuel : ℕ) (cfg : AuthConfig) (token : Bytes) (header : Header)
    → front fuel cfg token ≡ go_on header
    → GoodConfig cfg × GoodHeader fuel token header
unfolding front
front_sound fuel cfg token header h =
    let (_, c, r) = >>=-eq-go_on (check_config cfg) (λ _. read_header fuel token) h in
    (check_config_sound cfg c, read_header_sound fuel token header r)

-- Where the keys of a call come from.
abbrev pub KeysOf :
    {W : Type 0} → HttpClient W → ℕ → AuthConfig → Readings → W × JwksCache → List Jwk → Type 0
KeysOf send fuel cfg clock before keys =
    ((cached_keys clock.steady_at_cache before.1 ≡ keys) × (keys ≢ []))
    ⊎ ((refresh_jwks send fuel cfg clock.steady_at_refresh before).1 ≡ ok (fetched keys))

module _ {W : Type 0} (send : HttpClient W) (fuel : ℕ) (cfg : AuthConfig) (ssl : Openssl)
    (clock : Readings) where
  pub fetched-Passed :
      (header : Header) (r : Result Fetched) (result : JwtValidationResult)
      → with_fetched fuel cfg ssl clock.system header r ≡ ok result
      → result.accepted ≡ true
      → (keys : List Jwk) × (r ≡ ok (fetched keys))
        × Passed fuel cfg ssl clock.system keys header result
  unfolding with_fetched failure
  fetched-Passed header (err e) result h t = cc
  fetched-Passed header (ok (not_fetched status error)) result h t =
      let same : failure status error ≡ result = cc in
      absurd (false≢true (ap (λ (x : JwtValidationResult). x.accepted) same ∙ t))
  fetched-Passed header (ok (fetched keys)) result h t =
      (keys, refl, back-Passed fuel cfg ssl clock.system keys header result h t)

  keys-Passed :
      (header : Header) (before : W × JwksCache) (cached : List Jwk) (result : JwtValidationResult)
      → cached_keys clock.steady_at_cache before.1 ≡ cached
      → (with_keys send fuel cfg ssl clock header before).1 ≡ ok result
      → result.accepted ≡ true
      → (keys : List Jwk) × KeysOf send fuel cfg clock before keys
        × Passed fuel cfg ssl clock.system keys header result
  unfolding with_keys
  keys-Passed header before (k ∷ ks) result e h t = (
    k ∷ ks,
    inl (e, cons-ne-nil k ks),
    back-Passed fuel cfg ssl clock.system (k ∷ ks) header result (ground arith) t,
  )
  keys-Passed header before [] result e h t =
      let (keys, r, p) =
        fetched-Passed header (refresh_jwks send fuel cfg clock.steady_at_refresh before).1 result
          (ground arith) t in
      (keys, inr r, p)

  accepted_front :
      (token : Bytes) (before : W × JwksCache) (m : Outcome Header) (result : JwtValidationResult)
      → front fuel cfg token ≡ m
      → Rejects m
      → (validate send fuel cfg ssl clock token before).1 ≡ ok result
      → result.accepted ≡ true
      → (header : Header) × (m ≡ go_on header)
        × ((with_keys send fuel cfg ssl clock header before).1 ≡ ok result)
  unfolding validate
  accepted_front token before (go_on header) result e r h t = (header, refl, ground arith)
  accepted_front token before (return refused) result e (refuses _ f) h t =
      let same : refused ≡ result = ground arith in
      absurd (false≢true (sym f ∙ ap (λ (x : JwtValidationResult). x.accepted) same ∙ t))
  accepted_front token before (abort x) result e r h t = ground arith

  -- If `validate` accepts a token, then its configuration is complete and its header well formed, a key
  -- with the header's id, from the cache or just fetched, verifies its signature, its claims are good at
  -- the time of the call, and the result is the context that its payload gives.
  pub validate_sound :
      (token : Bytes) (before : W × JwksCache) (result : JwtValidationResult)
      → (validate send fuel cfg ssl clock token before).1 ≡ ok result
      → result.accepted ≡ true
      → (header : Header) × (keys : List Jwk) × GoodConfig cfg
        × GoodHeader fuel token header
        × KeysOf send fuel cfg clock before keys
        × Passed fuel cfg ssl clock.system keys header result
  validate_sound token before result h t =
      let (header, e, k) =
        accepted_front token before _ result refl (front-Rejects fuel cfg token) h t in
      let (keys, source, passed) = keys-Passed header before _ result refl k t in
      let (good, read) = front_sound fuel cfg token header e in
      (header, keys, good, read, source, passed)
