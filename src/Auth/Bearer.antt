-- ===== src/Auth/Bearer.antt =====
-- BearerAuthMiddleware of auth/bearer_auth_middleware.hpp. The validator, and the lookup of a header field
-- in the unet library, are parameters.
pub mod Laws
use uidentity.Base.{
  ℕ, Bool, true, false, List, [], ◌∷◌, Option, none, some, Bytes, codes, strip, Result, ok, err,
  Error,
}
use uidentity.Http.{Request, RequestContext, AuthResult, set_request_context}
use uidentity.Utils.Cookies.{HeaderValue}
use uidentity.Validator.Outcome.{JwtValidationResult}

-- What `validate` does to the state of the validator.
abbrev pub Validate : Type 0 → Type 0
Validate W = Bytes → W → W × Result JwtValidationResult

unfoldable pub deny : ℕ → Bytes → AuthResult
deny http_status error = record { ok = false; http_status = http_status; error = error }

-- The token behind `Bearer `, if there is one.
unfoldable pub bearer_token : Bytes → Option Bytes
bearer_token auth_header = elim (strip (codes "Bearer ") auth_header) [
  | some (c ∷ token) ↦ some (c ∷ token)
  | _ ↦ none
]

-- The request and the context are written to where the token is accepted.
unfoldable pub apply_result :
    Request → RequestContext → JwtValidationResult → Request × RequestContext × AuthResult
unfolding deny
apply_result request context result = elim result.accepted [
  | false ↦ (request, context, deny result.http_status result.error)
  | true ↦ (
    set_request_context request result.context,
    result.context,
    record { ok = true; http_status = 200; error = [] },
  )
]

abbrev pub applied :
    {W : Type 0}
    → Request
    → RequestContext
    → W × Result JwtValidationResult
    → W × Result (Request × RequestContext × AuthResult)
applied request context (w, err e) = (w, err e)
applied request context (w, ok result) = (w, ok (apply_result request context result))

module _ {W : Type 0} (header_value : HeaderValue) (validate : Validate W) where
  unfoldable pub authenticate :
      Request → RequestContext → W → W × Result (Request × RequestContext × AuthResult)
  authenticate request context w = elim (header_value request.headers (codes "Authorization")) [
    | none ↦ (w, ok (request, context, deny 401 (codes "missing_authorization_header")))
    | some auth_header ↦ elim (bearer_token auth_header) [
      | none ↦ (w, ok (request, context, deny 401 (codes "invalid_authorization_scheme")))
      | some token ↦ applied request context (validate token w)
    ]
  ]
