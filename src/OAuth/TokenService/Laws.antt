-- ===== src/OAuth/TokenService/Laws.antt =====
-- What the token service sends, and what a result that it accepts stands for.
use uidentity.Base.{
  is_empty-ne, ℕ, false, [], ◌++◌, Option, none, some, Bytes, codes, Result, ok, ok_inv, ◌≡◌, ◌≢◌,
  refl, ◌∙◌, sym, ap, arith, All, All-append, IsByte,
}
use uidentity.Http.{Request, Response}
use uidentity.Oidc.Endpoints.{token_endpoint}
use uidentity.Oidc.Form.{Fields, build_form_body, parse_form_encoded}
use uidentity.Oidc.Form.RoundTrip.{IsField, assign_all, parse_form_encoded-build_form_body}
use uidentity.Oidc.Requests.{make_form_post, request_to, with_bearer}
use uidentity.Oidc.Uri.{parse_absolute_uri}
use uidentity.Validator.Keys.{HttpClient, effective_status}
use uidentity.OAuth.Types.{OAuthResult, refused, deliver}
use uidentity.OAuth.TokenService.{
  TokenServiceConfig, with_secret, exchange_fields, request_failed, parse_token_response,
  exchange_authorization_code, refresh_tokens, revoke_token, introspect_token, fetch_user_info,
}

-- A configuration of bytes.
abbrev pub IsConfig : TokenServiceConfig → Type 0
IsConfig cfg =
    All IsByte cfg.client_id
    × All IsByte cfg.redirect_uri
    × ((secret : Bytes) → cfg.client_secret ≡ some secret → All IsByte secret)

with_secret-IsField :
    (cfg : TokenServiceConfig) (o : Option Bytes) (fields : Fields)
    → cfg.client_secret ≡ o
    → IsConfig cfg
    → All IsField fields
    → All IsField (with_secret cfg fields)
with_secret-IsField cfg none fields e _ h = rw e h
with_secret-IsField cfg (some secret) fields e (_, _, s) h =
    rw e (All-append _ fields _ h ((omega arith, s secret e), tt))

exchange_fields-IsField :
    (cfg : TokenServiceConfig) (code code_verifier : Bytes)
    → IsConfig cfg
    → All IsByte code
    → All IsByte code_verifier
    → All IsField (exchange_fields cfg code code_verifier)
unfolding exchange_fields
exchange_fields-IsField cfg code code_verifier c hc hv = with_secret-IsField cfg _ _ refl c (
  (omega arith, omega arith),
  ((omega arith, hc), ((omega arith, c.0), ((omega arith, c.1), ((omega arith, hv), tt)))),
)

make_form_post-body :
    (url body : Bytes) (request : Request)
    → make_form_post url body none ≡ ok request
    → (request.body ≡ body) × (request.method_token ≡ codes "POST")
unfolding make_form_post with_bearer request_to
make_form_post-body url body request h =
    let (uri, r, e) = ok_inv (parse_absolute_uri url) _ h in ground arith

module _ {W : Type 0} (send : HttpClient W) (fuel : ℕ) (cfg : TokenServiceConfig) where
  sent :
      (code code_verifier : Bytes) (w : W) (request : Request)
      → code ≢ []
      → code_verifier ≢ []
      → make_form_post
          (token_endpoint cfg.base_url cfg.realm)
          (build_form_body (exchange_fields cfg code code_verifier))
          none
        ≡ ok request
      → exchange_authorization_code send fuel cfg code code_verifier w ≡ (
        (send request w).0,
        parse_token_response fuel (codes "token_exchange_failed") (send request w).1,
      )
  unfolding exchange_authorization_code deliver
  sent code code_verifier w request hc hv e =
      ground (arith, is_empty-ne code hc, is_empty-ne code_verifier hv)

  -- For a code and a verifier that are not empty, where the token endpoint can be parsed, exactly one POST
  -- request goes out, whose body parses to the grant's fields, and the result is read off its response.
  pub exchange-sends :
      (code code_verifier : Bytes) (w : W) (request : Request)
      → IsConfig cfg
      → All IsByte code
      → All IsByte code_verifier
      → code ≢ []
      → code_verifier ≢ []
      → make_form_post
          (token_endpoint cfg.base_url cfg.realm)
          (build_form_body (exchange_fields cfg code code_verifier))
          none
        ≡ ok request
      → (exchange_authorization_code send fuel cfg code code_verifier w ≡ (
        (send request w).0,
        parse_token_response fuel (codes "token_exchange_failed") (send request w).1,
      ))
        × (request.method_token ≡ codes "POST")
        × (parse_form_encoded request.body ≡ assign_all (exchange_fields cfg code code_verifier) [])
  exchange-sends code code_verifier w request c bc bv hc hv e =
      let (body, method) = make_form_post-body _ _ request e in
      (
        sent code code_verifier w request hc hv e,
        method,
        ap parse_form_encoded body
            ∙ parse_form_encoded-build_form_body _
                (exchange_fields-IsField cfg code code_verifier c bc bv),
      )

  -- A call with an empty code, verifier or token is refused with status 400, and sends nothing.
  pub empty_refused :
      (s hint : Bytes) (w : W)
      → let missing : Bytes → W × Result OAuthResult =
          λ error. (w, ok (refused 400 (codes "missing_" ++ error))) in
        (exchange_authorization_code send fuel cfg [] s w ≡ missing (codes "code_or_code_verifier"))
        × (exchange_authorization_code send fuel cfg s [] w
            ≡ missing (codes "code_or_code_verifier"))
        × (refresh_tokens send fuel cfg [] w ≡ missing (codes "refresh_token"))
        × (revoke_token send fuel cfg [] hint w ≡ missing (codes "token"))
        × (introspect_token send fuel cfg [] w ≡ missing (codes "token"))
        × (fetch_user_info send fuel cfg [] w ≡ missing (codes "access_token"))
  unfolding exchange_authorization_code refresh_tokens revoke_token introspect_token fetch_user_info
  empty_refused s hint w = (refl, ground arith, refl, refl, refl, refl)

pub request_failed-refused :
    (fuel : ℕ) (response : Response) (fallback : Bytes) (result : OAuthResult)
    → request_failed fuel response fallback ≡ ok result
    → result.accepted ≡ false
unfolding request_failed
request_failed-refused fuel response fallback result h =
    let (error, e, _) = ok_inv _ (λ error. ok (refused (effective_status response) error)) h in
    let same : refused (effective_status response) error ≡ result = cc in
    sym (ap (λ (r : OAuthResult). r.accepted) same)
