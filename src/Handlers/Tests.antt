-- ===== src/Handlers/Tests.antt =====
-- Callbacks and logouts, and the theorems about them at concrete inputs.
mod Realms
use uidentity.Base.{
  ℕ, ◌+◌, ◌%◌, ◌^◌, ◌≤◌, true, false, List, [], ◌∷◌, ◌++◌, none, some, Bytes, codes, eq_bytes,
  eq_bytes_iff, length, ok, ◌≡◌, refl, arith,
}
use mathlib.Core.Bool.{false≢true}
use mathlib.Core.List.{cons-ne-nil}
use uidentity.Http.{Request, Response}
use uidentity.Json.Text.{text, print}
use uidentity.Json.Extract.{extract_json_string}
use uidentity.Utils.Cookies.{HeaderValue}
use uidentity.Oidc.Form.{build_form_body}
use uidentity.OAuth.Types.{TokenSet, no_tokens, refused}
use uidentity.Client.Store.{CallbackResult, callback_refused}
use uidentity.Handlers.AuthHandler.{
  AuthHandlerConfig, Calls, add_token_cookies, add_field, callback, callback_reply, logout,
  logout_reply, replied, json_escape, escape_byte, error_body, token_cookie_config_for_realm,
}
use uidentity.Handlers.AuthHandler.Escape.{extract_json_string-error_body}
use uidentity.Handlers.AuthHandler.Callback.{redirect_fields, callback-completes}
use uidentity.Handlers.AuthHandler.Logout.{
  IsSession, access_cookie, refresh_cookie, cookie_of, logout-revokes,
}

-- Calls that are refused, and that are counted.
abbrev counting : Calls ℕ
counting = record {
  has_realm = λ realm. true;
  start_login = λ realm ttl n. (n + 1, ok (record { authorization_url = []; state = [] }));
  complete_login = λ input n. (n + 1, ok (callback_refused 401 (codes "invalid_or_expired_state")));
  service_has_realm = λ realm. true;
  revoke_token = λ realm token hint n. (n + 1, ok (refused 400 token));
}

abbrev pub handler_config : AuthHandlerConfig
handler_config = record {
  token_cookies = record {
    access_token_name = codes "access_token";
    refresh_token_name = codes "refresh_token";
    path = codes "/";
    secure = true;
    same_site = codes "Lax";
  };
  post_login_redirect = codes "/";
  post_logout_redirect = codes "/";
  revoke_refresh_token_on_logout = true;
}

abbrev pub fresh : Response
fresh = record { status_code = 0; headers = []; body = [] }

abbrev pub request_with : Bytes → List (Bytes × Bytes) → Request
request_with query headers = record {
  method_token = codes "GET";
  uri = record { scheme = []; host = []; port = 0; path = codes "/cb"; query = query };
  authority = [];
  headers = headers;
  body = [];
  user_data = none;
}

extract_json_string-error_body_example :
    extract_json_string 20 (error_body (codes "a\"b")) (codes "error") ≡ ok (some (codes "a\"b"))
extract_json_string-error_body_example =
    extract_json_string-error_body (codes "a\"b") 20
      (unfold print json_escape escape_byte in omega arith)

abbrev redirected : Request
redirected = request_with (build_form_body (redirect_fields (codes "x") (codes "s"))) []

is_get : eq_bytes redirected.method_token (codes "POST") ≡ false
unfolding eq_bytes
is_get = refl

abbrev some_tokens : TokenSet
some_tokens = record no_tokens { access_token = codes "a;1"; refresh_token = codes "r=2" }

-- The first field, whatever its name.
abbrev first_field : HeaderValue
first_field [] name = none
first_field ((n, value) ∷ fields) name = some value

abbrev cookie_text : Bytes
cookie_text =
    cookie_of (access_cookie handler_config (codes "main") some_tokens)
    ++ b';' ∷ 32 ∷ cookie_of (refresh_cookie handler_config (codes "main") some_tokens)

abbrev logging_out : Request
logging_out =
    request_with (build_form_body ((codes "realm", codes "main") ∷ []))
      ((codes "Cookie", cookie_text) ∷ [])

some-IsSession : IsSession handler_config (codes "main") some_tokens
unfolding token_cookie_config_for_realm eq_bytes
some-IsSession = (
  (cons-ne-nil _ _, omega arith, omega arith),
  (cons-ne-nil _ _, omega arith, omega arith),
  λ e. false≢true ((eq_bytes_iff (codes "access_token_main") (codes "refresh_token_main")).1 e),
  cons-ne-nil _ _,
)

logout-revokes_example :
    (add_token_cookies handler_config (codes "main") some_tokens fresh
      ≡ add_field (codes "Set-Cookie") (refresh_cookie handler_config (codes "main") some_tokens) (
          add_field
            (codes "Set-Cookie")
            (access_cookie handler_config (codes "main") some_tokens)
            fresh))
    × (logout counting handler_config first_field logging_out fresh 4
        ≡ replied
            (λ _. logout_reply handler_config (codes "main") fresh)
            (5, ok (refused 400 (codes "r=2"))))
logout-revokes_example =
    logout-revokes counting first_field handler_config (codes "main") some_tokens logging_out fresh
      fresh 4 some-IsSession refl refl refl (omega arith) (cons-ne-nil _ _)
