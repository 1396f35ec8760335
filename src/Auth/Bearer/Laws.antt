-- ===== src/Auth/Bearer/Laws.antt =====
-- What the bearer middleware has done when it lets a request through, and when it does not.
use uidentity.Base.{
  true, false, [], ◌∷◌, ◌++◌, Option, none, some, Bytes, codes, strip, strip-some, Result, ok, err,
  Error, ◌≡◌, ◌≢◌, refl, ◌∙◌, sym, ap, arith, Bool-cases, inl, inr, ◌⊎◌,
}
use mathlib.Core.Bool.{false≢true}
use mathlib.Core.List.{cons-ne-nil}
use uidentity.Http.{Request, RequestContext, AuthResult, set_request_context}
use uidentity.Utils.Cookies.{HeaderValue}
use uidentity.Validator.Outcome.{JwtValidationResult}
use uidentity.Auth.Bearer.{Validate, deny, bearer_token, apply_result, applied, authenticate}

-- What is left of a call: the request, the context, and the result.
abbrev pub Left : Type 0
Left = Request × RequestContext × AuthResult

bearer_token-some :
    (auth_header : Bytes) (o : Option Bytes) (token : Bytes)
    → strip (codes "Bearer ") auth_header ≡ o
    → bearer_token auth_header ≡ some token
    → (auth_header ≡ codes "Bearer " ++ token) × (token ≢ [])
unfolding bearer_token
bearer_token-some auth_header none token e h = ground arith
bearer_token-some auth_header (some []) token e h = ground arith
bearer_token-some auth_header (some (c ∷ s)) token e h =
    let same : (c ∷ s) ≡ token = ground arith in
    rw (sym same) (strip-some (codes "Bearer ") auth_header (c ∷ s) e, cons-ne-nil c s)

-- An accepted result of the validator is handed on; a refused one changes nothing.
abbrev pub HandsOn : Request → RequestContext → JwtValidationResult → Left → Type 0
HandsOn request context result (request', context', auth) =
    (auth.ok ≡ result.accepted)
    × (result.accepted ≡ true
        → (context' ≡ result.context) × (request' ≡ set_request_context request result.context))
    × (result.accepted ≡ false
        → (context' ≡ context)
          × (request' ≡ request)
          × (auth.http_status ≡ result.http_status)
          × (auth.error ≡ result.error))

apply_result-HandsOn :
    (request : Request) (context : RequestContext) (result : JwtValidationResult)
    → HandsOn request context result (apply_result request context result)
unfolding apply_result deny
apply_result-HandsOn request context result = elim (Bool-cases result.accepted) [
  | inl e ↦ rw (e, apply_result) (refl, λ _. (refl, refl), λ f. absurd (false≢true (sym f)))
  | inr e ↦ rw (e, apply_result) (refl, λ t. absurd (false≢true t), λ _. (refl, refl, refl, refl))
]

-- The request was let through to the validator with this token, and the outcome is that of the validation.
abbrev pub Validated :
    {W : Type 0}
    → HeaderValue
    → Validate W
    → Request
    → RequestContext
    → W
    → W × Result Left
    → Type 0
Validated header_value validate request context w (after, outcome) =
    (token : Bytes) × (header_value request.headers (codes "Authorization")
      ≡ some (codes "Bearer " ++ token))
    × (token ≢ [])
    × ((validate token w).0 ≡ after)
    × (((e : Error) × ((validate token w).1 ≡ err e) × (outcome ≡ err e))
        ⊎ ((result : JwtValidationResult) × (left : Left) × ((validate token w).1 ≡ ok result)
            × (outcome ≡ ok left)
            × HandsOn request context result left))

-- The request was denied before any validation, and nothing changed.
abbrev pub Denied : {W : Type 0} → Request → RequestContext → W → W × Result Left → Type 0
Denied request context w (after, outcome) =
    (error : Bytes) × (after ≡ w) × (outcome ≡ ok (request, context, deny 401 error))

module _ {W : Type 0} (header_value : HeaderValue) (validate : Validate W) (request : Request)
    (context : RequestContext) (w : W) where
  with_validation :
      (auth_header token : Bytes) (v : W × Result JwtValidationResult)
      → header_value request.headers (codes "Authorization") ≡ some auth_header
      → (auth_header ≡ codes "Bearer " ++ token) × (token ≢ [])
      → validate token w ≡ v
      → Validated header_value validate request context w (applied request context v)
  with_validation auth_header token (after, err e) h (text, ne) v =
      (token, h ∙ ap some text, ne, ap (λ p. p.0) v, inl (e, ap (λ p. p.1) v, refl))
  with_validation auth_header token (after, ok result) h (text, ne) v = (
    token,
    h ∙ ap some text,
    ne,
    ap (λ p. p.0) v,
    inr (
      result,
      apply_result request context result,
      ap (λ p. p.1) v,
      refl,
      apply_result-HandsOn request context result,
    ),
  )

  header_denied :
      header_value request.headers (codes "Authorization") ≡ none
      → authenticate header_value validate request context w
        ≡ (w, ok (request, context, deny 401 (codes "missing_authorization_header")))
  unfolding authenticate
  header_denied e = ground arith

  scheme_denied :
      (auth_header : Bytes)
      → header_value request.headers (codes "Authorization") ≡ some auth_header
      → bearer_token auth_header ≡ none
      → authenticate header_value validate request context w
        ≡ (w, ok (request, context, deny 401 (codes "invalid_authorization_scheme")))
  unfolding authenticate
  scheme_denied auth_header e b = ground arith

  passed_on :
      (auth_header token : Bytes)
      → header_value request.headers (codes "Authorization") ≡ some auth_header
      → bearer_token auth_header ≡ some token
      → authenticate header_value validate request context w
        ≡ applied request context (validate token w)
  unfolding authenticate
  passed_on auth_header token e b = ground arith

  with_token :
      (auth_header : Bytes) (o : Option Bytes)
      → header_value request.headers (codes "Authorization") ≡ some auth_header
      → bearer_token auth_header ≡ o
      → Validated header_value validate request context w
          (authenticate header_value validate request context w)
        ⊎ Denied request context w (authenticate header_value validate request context w)
  with_token auth_header none e b =
      let same : authenticate header_value validate request context w
          ≡ (w, ok (request, context, deny 401 (codes "invalid_authorization_scheme"))) =
        scheme_denied auth_header e b in
      inr (rw same (codes "invalid_authorization_scheme", refl, refl))
  with_token auth_header (some token) e b =
      let same : authenticate header_value validate request context w
          ≡ applied request context (validate token w) =
        passed_on auth_header token e b in
      inl (
        rw same (
          with_validation auth_header token (validate token w) e
            (bearer_token-some auth_header _ token refl b) refl))

  by_header :
      (o : Option Bytes)
      → header_value request.headers (codes "Authorization") ≡ o
      → Validated header_value validate request context w
          (authenticate header_value validate request context w)
        ⊎ Denied request context w (authenticate header_value validate request context w)
  by_header none e =
      let same : authenticate header_value validate request context w
          ≡ (w, ok (request, context, deny 401 (codes "missing_authorization_header"))) =
        header_denied e in
      inr (rw same (codes "missing_authorization_header", refl, refl))
  by_header (some auth_header) e = with_token auth_header _ e refl

  -- Either the request carries a bearer token that is not empty, and the middleware ends as the validation of
  -- that token does, with its exception, or with its result and its context, which the request then holds
  -- too; a refusal leaves the request and the context as they were. Or the request is denied with status
  -- 401, and nothing is validated.
  pub authenticate_lem :
      Validated header_value validate request context w
        (authenticate header_value validate request context w)
      ⊎ Denied request context w (authenticate header_value validate request context w)
  authenticate_lem = by_header _ refl
