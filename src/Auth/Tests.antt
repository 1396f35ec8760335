-- ===== src/Auth/Tests.antt =====
-- Requests at the middleware, an authorization URL, and the theorems about them at concrete inputs.
use uidentity.Base.{
  ℕ, suc, true, [], ◌∷◌, none, some, Bytes, codes, ok, ◌≡◌, arith, split_first, ◌⊎◌,
}
use uidentity.Http.{Request, no_context}
use uidentity.Utils.Cookies.{HeaderValue}
use uidentity.Oidc.Form.{parse_form_encoded}
use uidentity.Oidc.Form.RoundTrip.{assign_all}
use uidentity.Pkce.{PkcePair}
use uidentity.Auth.PkceStrategy.{
  KeycloakRealmConfig, authorization_params, config_authorization_endpoint,
  create_authorization_url,
}
use uidentity.Auth.PkceStrategy.Url.{authorization_url-carries}
use uidentity.Auth.Bearer.{Validate, authenticate}
use uidentity.Auth.Bearer.Laws.{Validated, Denied, authenticate_lem}

abbrev realm_config : KeycloakRealmConfig
realm_config = record {
  base_url = codes "https://k";
  realm = codes "main";
  client_id = codes "c";
  redirect_uri = codes "https://s/cb?x=1";
  scopes = codes "openid" ∷ codes "email" ∷ [];
  pkce_verifier_len = 64;
  omit_default_port = true;
}

abbrev some_pair : PkcePair
some_pair = record { code_verifier = codes "v"; code_challenge = codes "ch" }

authorization_url-carries_example :
    let start = create_authorization_url realm_config (codes "s t") some_pair in
    (start.state ≡ codes "s t")
    × ((query : Bytes) × (split_first b'?' start.authorization_url
          ≡ (config_authorization_endpoint realm_config, some query))
        × (parse_form_encoded query
            ≡ assign_all (authorization_params realm_config (codes "s t") some_pair) []))
authorization_url-carries_example =
    authorization_url-carries realm_config (codes "s t") some_pair
      (omega arith, omega arith, omega arith, omega arith, (omega arith, (omega arith, tt)))
      (omega arith) (omega arith)

-- The first field, whatever its name.
abbrev first_field : HeaderValue
first_field [] name = none
first_field ((n, value) ∷ fields) name = some value

abbrev accepting : Validate ℕ
accepting token n = (
  suc n,
  ok (record {
    accepted = true;
    http_status = 200;
    error = [];
    context = record no_context { sub = token };
  }),
)

abbrev bearer_request : Request
bearer_request = record {
  method_token = codes "GET";
  uri = record { scheme = []; host = []; port = 0; path = codes "/"; query = [] };
  authority = [];
  headers = (codes "Authorization", codes "Bearer abc") ∷ [];
  body = [];
  user_data = none;
}

authenticate_example :
    Validated first_field accepting bearer_request no_context 0
      (authenticate first_field accepting bearer_request no_context 0)
    ⊎ Denied bearer_request no_context 0
        (authenticate first_field accepting bearer_request no_context 0)
authenticate_example = authenticate_lem first_field accepting bearer_request no_context 0
