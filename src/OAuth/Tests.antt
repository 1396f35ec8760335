-- ===== src/OAuth/Tests.antt =====
-- Exchanges with a server of one answer, and the theorems about the token service at concrete inputs.
use uidentity.Base.{
  ℕ, suc, true, [], ◌∷◌, none, some, Bytes, codes, ok, ◌≡◌, refl, arith, length, to_string, inr,
  inl, find_after, is_space,
}
use uidentity.Base.Int.{pos}
use uidentity.Http.{Request, Response}
use uidentity.Json.Running.{json_code}
use uidentity.Json.Extract.{extract_json_string, extract_json_bool, quoted}
use uidentity.Json.Text.{scalar, IsJson}
use uidentity.Jwt.Keys.{string_or}
use uidentity.Jwt.Claims.{client_roles, resource_roles, realm_roles, extract_all_roles}
use uidentity.Oidc.Endpoints.{trim_trailing_slash, realm_root, token_endpoint}
use uidentity.Oidc.Form.{build_form_body}
use uidentity.Oidc.Requests.{make_form_post, request_to, with_bearer}
use uidentity.Oidc.Uri.{
  split_at_last, split_scheme, split_authority, path_part, parse_absolute_uri, host_and_port,
}
use uidentity.Utils.UrlEncode.{url_encode, encode_byte, should_encode}
use uidentity.Validator.Keys.{HttpClient, effective_status, is_success}
use uidentity.OAuth.Types.{OAuthResult, no_tokens, no_user, refused, granted}
use uidentity.OAuth.TokenService.{
  TokenServiceConfig, exchange_fields, read_tokens, granted_tokens, parse_token_response,
  parse_introspection, read_introspection, read_user,
}
use uidentity.OAuth.TokenService.Accepted.{
  parse_token_response-accepted, parse_introspection-accepted, parse_introspection_blank,
}

abbrev config : TokenServiceConfig
config = record {
  base_url = codes "http://k/";
  realm = codes "r";
  client_id = codes "c";
  client_secret = none;
  redirect_uri = codes "http://s/cb";
}

abbrev token_answer : Response
token_answer = record { status_code = 200; headers = []; body = codes "{\"access_token\":\"t\"}" }

-- It counts the requests.
abbrev one_answer : HttpClient ℕ
one_answer request n = (suc n, token_answer)

abbrev body_sent : Bytes
body_sent = build_form_body (exchange_fields config (codes "x") (codes "v"))

abbrev request_sent : Request
request_sent = record {
  method_token = codes "POST";
  uri = record {
    scheme = codes "http";
    host = codes "k";
    port = 0;
    path = codes "/realms/r/protocol/openid-connect/token";
    query = [];
  };
  authority = codes "k";
  headers =
      (codes "Content-Type", codes "application/x-www-form-urlencoded")
      ∷ (codes "Accept", codes "application/json")
      ∷ (codes "Content-Length", to_string (pos (length body_sent)))
      ∷ [];
  body = body_sent;
  user_data = none;
}

request_made :
    make_form_post
      (token_endpoint config.base_url config.realm)
      (build_form_body (exchange_fields config (codes "x") (codes "v")))
      none
    ≡ ok request_sent
unfolding make_form_post request_to with_bearer token_endpoint realm_root trim_trailing_slash
    parse_absolute_uri split_at_last split_scheme split_authority path_part host_and_port json_code
    url_encode encode_byte should_encode
request_made = refl

abbrev one_grant : OAuthResult
one_grant = granted 200 (record no_tokens { access_token = codes "t" }) no_user

token_read : parse_token_response 40 (codes "f") token_answer ≡ ok one_grant
unfolding parse_token_response granted_tokens read_tokens string_or json_code effective_status
    is_success
token_read = refl

parse_token_response-accepted_example :
    (is_success (effective_status token_answer) ≡ true)
    × (extract_json_string 40 token_answer.body (codes "access_token")
        ≡ ok (some one_grant.tokens.access_token))
    × (one_grant.http_status ≡ effective_status token_answer)
parse_token_response-accepted_example =
    parse_token_response-accepted 40 (codes "f") token_answer one_grant token_read refl

abbrev active_answer : Response
active_answer = record { status_code = 200; headers = []; body = codes "{\"active\":true}" }

abbrev active_result : OAuthResult
active_result = granted 200 no_tokens no_user

active_read : parse_introspection 40 active_answer ≡ ok active_result
unfolding parse_introspection read_introspection read_user string_or json_code effective_status
    is_success client_roles resource_roles realm_roles extract_all_roles
active_read = refl

parse_introspection-accepted_example :
    (is_success (effective_status active_answer) ≡ true)
    × (extract_json_bool 40 active_answer.body (codes "active") ≡ ok (some true))
parse_introspection-accepted_example =
    parse_introspection-accepted 40 active_answer active_result active_read refl

abbrev spaced_answer : Response
spaced_answer = record { status_code = 200; headers = []; body = codes "{\"active\":true }" }

spaced_found : find_after (quoted (codes "active")) spaced_answer.body ≡ some (codes ":true }")
unfolding json_code
spaced_found = refl

answered : is_success (effective_status spaced_answer) ≡ true
unfolding effective_status is_success
answered = refl

space : is_space 32 ≡ true
unfolding is_space
space = refl

true-IsScalar : IsJson (scalar (codes "true"))
unfolding is_space
true-IsScalar = (refl, omega arith, omega arith, omega arith, omega arith)

parse_introspection_blank_example :
    parse_introspection 40 spaced_answer ≡ ok (refused 401 (codes "inactive_token"))
parse_introspection_blank_example =
    parse_introspection_blank (codes "true") 32 40 spaced_answer [] [] [] (codes "}") answered
      spaced_found tt true-IsScalar tt (space, tt) (inr (inl refl)) (omega arith)
