-- ===== src/Oidc/Requests.antt =====
-- make_form_post and make_json_get of oidc_utils.hpp.
use uidentity.Base.{
  [], ◌++◌, Option, none, some, Bytes, codes, length, to_string, Result, ok, ◌>>=◌,
}
use uidentity.Base.Int.{pos}
use uidentity.Http.{Uri, Request, add_header}
use uidentity.Oidc.Uri.{parse_absolute_uri, host_and_port}

-- A request to an address, with no header field yet.
unfoldable pub request_to : Bytes → Uri → Bytes → Request
request_to method uri body = record {
  method_token = method;
  uri = uri;
  authority = host_and_port uri;
  headers = [];
  body = body;
  user_data = none;
}

unfoldable pub with_bearer : Option Bytes → Request → Request
with_bearer none request = request
with_bearer (some token) request =
    add_header (codes "Authorization") (codes "Bearer " ++ token) request

unfoldable pub make_form_post : Bytes → Bytes → Option Bytes → Result Request
make_form_post url body bearer_token = do
  uri ← parse_absolute_uri url
  let request = request_to (codes "POST") uri body
  let typed = add_header (codes "Content-Type") (codes "application/x-www-form-urlencoded") request
  let accepting = add_header (codes "Accept") (codes "application/json") typed
  let sized = add_header (codes "Content-Length") (to_string (pos (length body))) accepting
  ok (with_bearer bearer_token sized)

unfoldable pub make_json_get : Bytes → Option Bytes → Result Request
make_json_get url bearer_token = do
  uri ← parse_absolute_uri url
  let accepting =
      add_header (codes "Accept") (codes "application/json") (request_to (codes "GET") uri [])
  ok (with_bearer bearer_token accepting)
