-- ===== src/Handlers/AuthHandler.antt =====
-- AuthHandler of handlers/AuthHandler.h. The client and the token service are its template parameters, over
-- one state; parse_form_encoded is in Oidc/Form.
pub mod Escape
pub mod Callback
pub mod Logout
pub mod Realms
pub mod Flow
use uidentity.Base.{
  ℕ, ◌+◌, Bool, true, false, not, List, [], ◌∷◌, ◌++◌, Option, none, some, Bytes, codes, is_empty,
  eq_bytes, Dict, lookup, insert_or_assign, ◌==◌, ltb, if◌then◌else◌, Result, ok, err, Error,
  value_or, ◌%◌, ◌^◌,
}
use uidentity.Base.Int.{ℤ, pos}
use uidentity.Http.{Request, Response}
use uidentity.Utils.Cookies.{
  CookieOptions, TokenCookieConfig, HeaderValue, get_cookie, make_set_cookie, make_expired_cookie,
  token_cookie_options,
}
use uidentity.Oidc.Form.{parse_form_encoded}
use uidentity.OAuth.Types.{TokenSet, OAuthResult}
use uidentity.Auth.PkceStrategy.{AuthStart}
use uidentity.Client.Store.{CallbackInput, CallbackResult}

pub record AuthHandlerConfig : Type 0 where
  pub token_cookies : TokenCookieConfig
  pub post_login_redirect : Bytes
  pub post_logout_redirect : Bytes
  pub revoke_refresh_token_on_logout : Bool

-- What the handler calls.
pub record Calls (X : Type 0) : Type 0 where
  pub has_realm : Bytes → Bool
  pub start_login : Bytes → ℤ → X → X × Result AuthStart
  pub complete_login : CallbackInput → X → X × Result CallbackResult
  pub service_has_realm : Bytes → Bool
  pub revoke_token : Bytes → Bytes → Bytes → X → X × Result OAuthResult

-- `setStatus`, `addHeader` and `setBody` of the unet response.
abbrev pub set_status : ℕ → Response → Response
set_status status response = record response { status_code = status }

abbrev pub add_field : Bytes → Bytes → Response → Response
add_field name value response = record response { headers = response.headers ++ (name, value) ∷ [] }

abbrev pub set_body : Bytes → Response → Response
set_body body response = record response { body = body }

abbrev pub no_store : Response → Response
no_store response =
    add_field (codes "Pragma") (codes "no-cache")
      (add_field (codes "Cache-Control") (codes "no-store") response)

-- What one byte is written as.
unfoldable pub escape_byte : ℕ → Bytes
escape_byte ch =
    if ch == b'\\'
    then codes "\\\\"
    else if ch == b'"'
    then codes "\\\""
    else if ch == 8
    then codes "\\b"
    else if ch == 12
    then codes "\\f"
    else if ch == 10
    then codes "\\n"
    else if ch == 13
    then codes "\\r"
    else if ch == 9
    then codes "\\t"
    else ch ∷ []

unfoldable pub json_escape : Bytes → Bytes
json_escape [] = []
json_escape (ch ∷ value) = escape_byte ch ++ json_escape value

unfoldable pub error_body : Bytes → Bytes
error_body error = codes "{\"ok\":false,\"error\":\"" ++ (json_escape error ++ codes "\"}")

unfoldable pub token_cookie_config_for_realm : AuthHandlerConfig → Bytes → TokenCookieConfig
token_cookie_config_for_realm config realm =
    let cookies = config.token_cookies in
    record cookies {
      access_token_name = cookies.access_token_name ++ (codes "_" ++ realm);
      refresh_token_name = cookies.refresh_token_name ++ (codes "_" ++ realm);
    }

unfoldable pub add_token_cookies : AuthHandlerConfig → Bytes → TokenSet → Response → Response
add_token_cookies config realm tokens response =
    let cookies = token_cookie_config_for_realm config realm in
    add_field (codes "Set-Cookie")
      (make_set_cookie cookies.refresh_token_name tokens.refresh_token
        (token_cookie_options cookies (some tokens.refresh_expires_in)))
      (add_field (codes "Set-Cookie")
        (make_set_cookie cookies.access_token_name tokens.access_token
          (token_cookie_options cookies (some tokens.expires_in)))
        response)

unfoldable pub clear_token_cookies : AuthHandlerConfig → Bytes → Response → Response
clear_token_cookies config realm response =
    let cookies = token_cookie_config_for_realm config realm in
    add_field (codes "Set-Cookie")
      (make_expired_cookie cookies.refresh_token_name (token_cookie_options cookies none))
      (add_field (codes "Set-Cookie")
        (make_expired_cookie cookies.access_token_name (token_cookie_options cookies none))
        response)

-- The realm of a query: there, and not empty.
unfoldable pub realm_param : Dict Bytes → Option Bytes
realm_param params = elim (lookup (codes "realm") params) [
  | some (c ∷ realm) ↦ some (c ∷ realm)
  | _ ↦ none
]

abbrev pub json_reply : ℕ → Bytes → Response → Response
json_reply status body response = set_body body (
    no_store
      (add_field (codes "Content-Type") (codes "application/json") (set_status status response)))

abbrev pub missing_realm : Bytes
missing_realm = codes "{\"ok\":false,\"error\":\"missing_realm\"}"

abbrev pub unknown_realm : Bytes
unknown_realm = codes "{\"ok\":false,\"error\":\"unknown_realm\"}"

-- The fields of the body go over those of the query.
unfoldable pub merge_params : Dict Bytes → Dict Bytes → Dict Bytes
merge_params [] params = params
merge_params ((key, value) ∷ m) params = merge_params m (insert_or_assign key value params)

unfoldable pub callback_params : Request → Dict Bytes
callback_params request =
    if eq_bytes request.method_token (codes "POST")
    then merge_params (parse_form_encoded request.body) (parse_form_encoded request.uri.query)
    else parse_form_encoded request.uri.query

unfoldable pub callback_input : Dict Bytes → CallbackInput
callback_input params = record {
  code = value_or (lookup (codes "code") params) [];
  state = value_or (lookup (codes "state") params) [];
}

unfoldable pub callback_reply : AuthHandlerConfig → CallbackResult → Response → Response
callback_reply config result response = elim result.accepted [
  | false ↦ set_body (error_body result.error) (
      set_status (result.http_status % 2 ^ 16)
        (add_field (codes "Content-Type") (codes "application/json") (no_store response)))
  | true ↦ set_body [] (
      add_field (codes "Location") config.post_login_redirect
        (set_status 302 (add_token_cookies config result.realm result.tokens (no_store response))))
]

unfoldable pub login_reply : AuthStart → Response → Response
login_reply start response =
    set_body []
      (no_store (add_field (codes "Location") start.authorization_url (set_status 302 response)))

-- A result or an exception, with what becomes of the response.
abbrev pub replied : {X A : Type 0} → (A → Response) → X × Result A → X × Result Response
replied f (x, err e) = (x, err e)
replied f (x, ok a) = (x, ok (f a))

unfoldable pub logout_reply : AuthHandlerConfig → Bytes → Response → Response
logout_reply config realm response = set_body [] (
    add_field (codes "Location") config.post_logout_redirect
      (set_status 302 (clear_token_cookies config realm (no_store response))))

-- The refresh token that a logout revokes, if there is one to revoke.
unfoldable pub to_revoke : HeaderValue → AuthHandlerConfig → Bytes → Request → Option Bytes
to_revoke header_value config realm request = elim config.revoke_refresh_token_on_logout [
  | false ↦ none
  | true ↦
      elim (get_cookie header_value request
        (token_cookie_config_for_realm config realm).refresh_token_name) [
          | some (c ∷ token) ↦ some (c ∷ token)
          | _ ↦ none
        ]
]

module _ {X : Type 0} (calls : Calls X) (config : AuthHandlerConfig) where
  unfoldable pub login : Request → Response → X → X × Result Response
  login request response x = elim (realm_param (parse_form_encoded request.uri.query)) [
    | none ↦ (x, ok (json_reply 400 missing_realm response))
    | some realm ↦ elim (calls.has_realm realm) [
      | false ↦ (x, ok (json_reply 404 unknown_realm response))
      | true ↦ replied (λ start. login_reply start response) (calls.start_login realm (pos 300) x)
    ]
  ]

  unfoldable pub callback : Request → Response → X → X × Result Response
  callback request response x =
      replied (λ result. callback_reply config result response)
        (calls.complete_login (callback_input (callback_params request)) x)

  -- The result of the revocation is not looked at; an exception passes.
  unfoldable pub logout_of : HeaderValue → Bytes → Request → Response → X → X × Result Response
  logout_of header_value realm request response x =
      elim (to_revoke header_value config realm request) [
        | none ↦ (x, ok (logout_reply config realm response))
        | some token ↦
            replied (λ _. logout_reply config realm response)
              (calls.revoke_token realm token (codes "refresh_token") x)
      ]

  unfoldable pub logout : HeaderValue → Request → Response → X → X × Result Response
  logout header_value request response x =
      elim (realm_param (parse_form_encoded request.uri.query)) [
        | none ↦ (
          x,
          ok (
              set_body missing_realm (
                set_status 400 (
                  add_field (codes "Content-Type") (codes "application/json")
                    (no_store response)))),
        )
        | some realm ↦ elim (calls.service_has_realm realm) [
          | false ↦ (
            x,
            ok (
                set_body unknown_realm (
                  set_status 404 (
                    add_field (codes "Content-Type") (codes "application/json")
                      (no_store response)))),
          )
          | true ↦ logout_of header_value realm request response x
        ]
      ]
