-- ===== src/Oidc/Tests.antt =====
-- Runs of the OIDC helpers, and the theorems about them at concrete inputs.
use uidentity.Base.{[], ◌∷◌, codes, ◌≡◌, refl, arith, ok}
use uidentity.Base.{true}
use uidentity.Base.{sym, ap, ◌∙◌}
use mathlib.Core.List.{cons-ne-nil}
use uidentity.Http.{Response, Uri}
use uidentity.Oidc.Uri.{parse_absolute_uri, request_url, host_and_port}
use uidentity.Oidc.Uri.RoundTrip.{IsAddress, parse_absolute_uri-request_url}
use uidentity.Oidc.Requests.{request_to}
use uidentity.Json.Running.{json_code}
use uidentity.Jwt.Keys.{string_or}
use uidentity.Validator.Keys.{effective_status, is_success}
use uidentity.Oidc.Endpoints.{
  authorization_endpoint, token_endpoint, jwks_endpoint, userinfo_endpoint, revocation_endpoint,
  introspection_endpoint, logout_endpoint,
}
use uidentity.Oidc.Discovery.{
  OidcEndpoints, DiscoveryResult, read_endpoints, discovered, read_discovery,
}
use uidentity.Oidc.Form.{Fields, build_form_body, parse_form_encoded}
use uidentity.Oidc.Form.RoundTrip.{assign_all, parse_form_encoded-build_form_body}

abbrev two_fields : Fields
two_fields = (codes "code", codes "a b&c") ∷ (codes "state", codes "1=2+3") ∷ []

parse_form_encoded-build_form_body_example :
    parse_form_encoded (build_form_body two_fields) ≡ assign_all two_fields []
parse_form_encoded-build_form_body_example =
    parse_form_encoded-build_form_body two_fields
      ((omega arith, omega arith), ((omega arith, omega arith), tt))

abbrev document : Response
document = record { status_code = 200; headers = []; body = codes "{\"issuer\":\"i\"}" }

abbrev found_endpoints : OidcEndpoints
found_endpoints = record {
  issuer = codes "i";
  authorization_endpoint = authorization_endpoint (codes "k") (codes "r");
  token_endpoint = token_endpoint (codes "k") (codes "r");
  jwks_uri = jwks_endpoint (codes "k") (codes "r");
  userinfo_endpoint = userinfo_endpoint (codes "k") (codes "r");
  revocation_endpoint = revocation_endpoint (codes "k") (codes "r");
  introspection_endpoint = introspection_endpoint (codes "k") (codes "r");
  end_session_endpoint = logout_endpoint (codes "k") (codes "r");
}

abbrev found : DiscoveryResult
found = record { accepted = true; http_status = 200; error = []; endpoints = found_endpoints }

document_read : read_discovery 40 (codes "k") (codes "r") document ≡ ok found
unfolding read_discovery read_endpoints discovered string_or json_code effective_status is_success
document_read = refl

abbrev some_address : Uri
some_address = record {
  scheme = codes "https";
  host = codes "k.example";
  port = 8443;
  path = codes "/realms/a";
  query = codes "x=1?:/";
}

some_address-IsAddress : IsAddress some_address
some_address-IsAddress = record {
  scheme_given = cons-ne-nil _ _;
  scheme_plain = omega arith;
  host_no_colon = omega arith;
  host_no_slash = omega arith;
  host_no_mark = omega arith;
  port_fits = omega arith;
  path_behind = (codes "realms/a", refl, omega arith);
}

some_request_authority :
    (request_to (codes "GET") some_address []).authority ≡ host_and_port some_address
unfolding request_to
some_request_authority = refl

request_address : (request_to (codes "GET") some_address []).uri ≡ some_address
unfolding request_to
request_address = refl

parse_absolute_uri-request_url_example :
    parse_absolute_uri (request_url (request_to (codes "GET") some_address []))
    ≡ ok (request_to (codes "GET") some_address []).uri
parse_absolute_uri-request_url_example =
    parse_absolute_uri-request_url (request_to (codes "GET") some_address [])
      (rw request_address some_address-IsAddress)
      (some_request_authority ∙ ap host_and_port (sym request_address))
