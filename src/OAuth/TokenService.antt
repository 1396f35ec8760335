-- ===== src/OAuth/TokenService.antt =====
-- TokenService of oauth/token_service.hpp. An awaited request is a step on the state of the network.
pub mod Laws
pub mod Accepted
use uidentity.Base.{
  ℕ, Bool, true, false, not, ◌||◌, List, [], ◌∷◌, ◌++◌, Option, none, some, Bytes, codes, is_empty,
  eq_bytes, if◌then◌else◌, value_or, Result, ok, err, Error, ◌>>=◌,
}
use uidentity.Base.Int.{ℤ, pos}
use uidentity.Http.{Request, Response}
use uidentity.Json.Extract.{extract_json_string, extract_json_int, extract_json_bool}
use uidentity.Jwt.Keys.{string_or}
use uidentity.Jwt.Claims.{extract_all_roles}
use uidentity.Oidc.Endpoints.{
  token_endpoint, revocation_endpoint, introspection_endpoint, userinfo_endpoint,
}
use uidentity.Oidc.Form.{Fields, build_form_body}
use uidentity.Oidc.Requests.{make_form_post, make_json_get}
use uidentity.Validator.Keys.{HttpClient, effective_status, is_success}
use uidentity.OAuth.Types.{
  TokenSet, UserInfo, OAuthResult, no_tokens, no_user, refused, granted, deliver, answer,
}

pub record TokenServiceConfig : Type 0 where
  pub base_url : Bytes
  pub realm : Bytes
  pub client_id : Bytes
  pub client_secret : Option Bytes
  pub redirect_uri : Bytes

unfoldable pub has_realm : TokenServiceConfig → Bytes → Bool
has_realm cfg realm = eq_bytes realm cfg.realm

-- `fields.emplace_back("client_secret", …)` where there is one.
abbrev pub with_secret : TokenServiceConfig → Fields → Fields
with_secret cfg fields = elim cfg.client_secret [
  | none ↦ fields
  | some secret ↦ fields ++ (codes "client_secret", secret) ∷ []
]

unfoldable pub exchange_fields : TokenServiceConfig → Bytes → Bytes → Fields
exchange_fields cfg code code_verifier = with_secret cfg (
    (codes "grant_type", codes "authorization_code")
    ∷ (codes "code", code)
    ∷ (codes "client_id", cfg.client_id)
    ∷ (codes "redirect_uri", cfg.redirect_uri)
    ∷ (codes "code_verifier", code_verifier)
    ∷ [])

unfoldable pub refresh_fields : TokenServiceConfig → Bytes → Fields
refresh_fields cfg refresh_token = with_secret cfg (
    (codes "grant_type", codes "refresh_token")
    ∷ (codes "refresh_token", refresh_token)
    ∷ (codes "client_id", cfg.client_id)
    ∷ [])

unfoldable pub revoke_fields : TokenServiceConfig → Bytes → Bytes → Fields
revoke_fields cfg token token_type_hint = with_secret cfg (
    (codes "client_id", cfg.client_id)
    ∷ (codes "token", token)
    ∷ (codes "token_type_hint", token_type_hint)
    ∷ [])

unfoldable pub introspect_fields : TokenServiceConfig → Bytes → Fields
introspect_fields cfg token =
    with_secret cfg ((codes "client_id", cfg.client_id) ∷ (codes "token", token) ∷ [])

unfoldable pub compose_error_message : ℕ → Response → Bytes → Result Bytes
compose_error_message fuel response fallback_error = do
  error ← string_or fuel response.body (codes "error") fallback_error
  description ← string_or fuel response.body (codes "error_description") []
  ok (if is_empty description then error else error ++ (codes ": " ++ description))

-- A response with a status outside 200 to 299.
unfoldable pub request_failed : ℕ → Response → Bytes → Result OAuthResult
request_failed fuel response fallback_error = do
  error ← compose_error_message fuel response fallback_error
  ok (refused (effective_status response) error)

unfoldable pub read_tokens : ℕ → Bytes → Bytes → Result TokenSet
read_tokens fuel body access_token = do
  id_token ← string_or fuel body (codes "id_token") []
  refresh_token ← string_or fuel body (codes "refresh_token") []
  token_type ← string_or fuel body (codes "token_type") (codes "Bearer")
  scope ← string_or fuel body (codes "scope") []
  expires_in ← extract_json_int fuel body (codes "expires_in")
  refresh_expires_in ← extract_json_int fuel body (codes "refresh_expires_in")
  ok (record {
    access_token = access_token;
    id_token = id_token;
    refresh_token = refresh_token;
    token_type = token_type;
    scope = scope;
    expires_in = value_or expires_in (pos 0);
    refresh_expires_in = value_or refresh_expires_in (pos 0);
  })

unfoldable pub granted_tokens : ℕ → Response → Option Bytes → Result OAuthResult
granted_tokens fuel response none =
    ok (refused (effective_status response) (codes "token_response_missing_access_token"))
granted_tokens fuel response (some access_token) = do
  tokens ← read_tokens fuel response.body access_token
  ok (granted (effective_status response) tokens no_user)

unfoldable pub parse_token_response : ℕ → Bytes → Response → Result OAuthResult
parse_token_response fuel fallback_error response = elim (is_success (effective_status response)) [
  | false ↦ request_failed fuel response fallback_error
  | true ↦ do
    access_token ← extract_json_string fuel response.body (codes "access_token")
    granted_tokens fuel response access_token
]

unfoldable pub parse_revocation : ℕ → Response → Result OAuthResult
parse_revocation fuel response = elim (is_success (effective_status response)) [
  | false ↦ request_failed fuel response (codes "token_revoke_failed")
  | true ↦ ok (granted (effective_status response) no_tokens no_user)
]

unfoldable pub read_user : ℕ → Bytes → Result UserInfo
read_user fuel body = do
  sub ← string_or fuel body (codes "sub") []
  preferred_username ← string_or fuel body (codes "preferred_username") []
  email ← string_or fuel body (codes "email") []
  roles ← extract_all_roles fuel body
  ok (record { sub = sub; preferred_username = preferred_username; email = email; roles = roles })

unfoldable pub read_introspection : ℕ → Response → Result OAuthResult
read_introspection fuel response = do
  user_info ← read_user fuel response.body
  scope ← string_or fuel response.body (codes "scope") []
  token_type ← string_or fuel response.body (codes "token_type") (codes "Bearer")
  exp ← extract_json_int fuel response.body (codes "exp")
  ok (
      granted (effective_status response)
        (record no_tokens {
          token_type = token_type;
          scope = scope;
          expires_in = value_or exp (pos 0);
        })
        user_info)

unfoldable pub parse_introspection : ℕ → Response → Result OAuthResult
parse_introspection fuel response = elim (is_success (effective_status response)) [
  | false ↦ request_failed fuel response (codes "token_introspection_failed")
  | true ↦ do
    active ← extract_json_bool fuel response.body (codes "active")
    elim (value_or active false) [
      | false ↦ ok (refused 401 (codes "inactive_token"))
      | true ↦ read_introspection fuel response
    ]
]

unfoldable pub parse_user_info : ℕ → Response → Result OAuthResult
parse_user_info fuel response = elim (is_success (effective_status response)) [
  | false ↦ request_failed fuel response (codes "userinfo_request_failed")
  | true ↦ do
    user_info ← read_user fuel response.body
    ok (granted (effective_status response) no_tokens user_info)
]

module _ {W : Type 0} (send : HttpClient W) (fuel : ℕ) (cfg : TokenServiceConfig) where
  unfoldable pub exchange_authorization_code : Bytes → Bytes → W → W × Result OAuthResult
  exchange_authorization_code code code_verifier w =
      if is_empty code || is_empty code_verifier
      then (w, ok (refused 400 (codes "missing_code_or_code_verifier")))
      else answer (parse_token_response fuel (codes "token_exchange_failed")) (
          deliver send
            (make_form_post (token_endpoint cfg.base_url cfg.realm)
              (build_form_body (exchange_fields cfg code code_verifier)) none)
            w)

  unfoldable pub refresh_tokens : Bytes → W → W × Result OAuthResult
  refresh_tokens refresh_token w =
      if is_empty refresh_token
      then (w, ok (refused 400 (codes "missing_refresh_token")))
      else answer (parse_token_response fuel (codes "token_refresh_failed")) (
          deliver send
            (make_form_post (token_endpoint cfg.base_url cfg.realm)
              (build_form_body (refresh_fields cfg refresh_token)) none)
            w)

  unfoldable pub revoke_token : Bytes → Bytes → W → W × Result OAuthResult
  revoke_token token token_type_hint w =
      if is_empty token
      then (w, ok (refused 400 (codes "missing_token")))
      else answer (parse_revocation fuel) (
          deliver send
            (make_form_post (revocation_endpoint cfg.base_url cfg.realm)
              (build_form_body (revoke_fields cfg token token_type_hint)) none)
            w)

  -- The overloads that take a realm: any other one is refused with an exception.
  unfoldable pub refresh_tokens_of_realm : Bytes → Bytes → W → W × Result OAuthResult
  refresh_tokens_of_realm realm refresh_token w =
      if has_realm cfg realm
      then refresh_tokens refresh_token w
      else (w, err (Error.invalid_argument (codes "unknown realm")))

  unfoldable pub revoke_token_of_realm : Bytes → Bytes → Bytes → W → W × Result OAuthResult
  revoke_token_of_realm realm token token_type_hint w =
      if has_realm cfg realm
      then revoke_token token token_type_hint w
      else (w, err (Error.invalid_argument (codes "unknown realm")))

  unfoldable pub introspect_token : Bytes → W → W × Result OAuthResult
  introspect_token token w =
      if is_empty token
      then (w, ok (refused 400 (codes "missing_token")))
      else answer (parse_introspection fuel) (
          deliver send
            (make_form_post (introspection_endpoint cfg.base_url cfg.realm)
              (build_form_body (introspect_fields cfg token)) none)
            w)

  unfoldable pub fetch_user_info : Bytes → W → W × Result OAuthResult
  fetch_user_info access_token w =
      if is_empty access_token
      then (w, ok (refused 400 (codes "missing_access_token")))
      else answer (parse_user_info fuel) (
          deliver send
            (make_json_get (userinfo_endpoint cfg.base_url cfg.realm) (some access_token)) w)
