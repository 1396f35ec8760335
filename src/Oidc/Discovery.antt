-- ===== src/Oidc/Discovery.antt =====
-- OidcDiscoveryClient of oidc/discovery.hpp.
use uidentity.Base.{
  ℕ, Bool, true, false, [], none, Bytes, codes, Result, ok, ◌>>=◌, ok_inv, ◌≡◌, arith,
}
use uidentity.Http.{Response}
use uidentity.Jwt.Keys.{string_or}
use uidentity.Oidc.Endpoints.{
  realm_root, authorization_endpoint, token_endpoint, jwks_endpoint, userinfo_endpoint,
  revocation_endpoint, introspection_endpoint, logout_endpoint, discovery_endpoint,
}
use uidentity.Oidc.Requests.{make_json_get}
use uidentity.Validator.Keys.{HttpClient, effective_status, is_success}
use uidentity.OAuth.Types.{deliver, answer}

pub record OidcEndpoints : Type 0 where
  pub issuer : Bytes
  pub authorization_endpoint : Bytes
  pub token_endpoint : Bytes
  pub jwks_uri : Bytes
  pub userinfo_endpoint : Bytes
  pub revocation_endpoint : Bytes
  pub introspection_endpoint : Bytes
  pub end_session_endpoint : Bytes

pub record DiscoveryResult : Type 0 where
  pub accepted : Bool
  pub http_status : ℕ
  pub error : Bytes
  pub endpoints : OidcEndpoints

-- Each address is the one of the document, or else the one of Keycloak's paths.
unfoldable pub read_endpoints : ℕ → Bytes → Bytes → Bytes → Result OidcEndpoints
read_endpoints fuel base_url realm body = do
  issuer ← string_or fuel body (codes "issuer") (realm_root base_url realm)
  authorization ←
      string_or fuel body (codes "authorization_endpoint") (authorization_endpoint base_url realm)
  token ← string_or fuel body (codes "token_endpoint") (token_endpoint base_url realm)
  jwks ← string_or fuel body (codes "jwks_uri") (jwks_endpoint base_url realm)
  userinfo ← string_or fuel body (codes "userinfo_endpoint") (userinfo_endpoint base_url realm)
  revocation ←
      string_or fuel body (codes "revocation_endpoint") (revocation_endpoint base_url realm)
  introspection ←
      string_or fuel body (codes "introspection_endpoint") (introspection_endpoint base_url realm)
  end_session ← string_or fuel body (codes "end_session_endpoint") (logout_endpoint base_url realm)
  ok (record {
    issuer = issuer;
    authorization_endpoint = authorization;
    token_endpoint = token;
    jwks_uri = jwks;
    userinfo_endpoint = userinfo;
    revocation_endpoint = revocation;
    introspection_endpoint = introspection;
    end_session_endpoint = end_session;
  })

unfoldable pub discovered : ℕ → Response → OidcEndpoints → Result DiscoveryResult
discovered fuel response endpoints = elim (is_success (effective_status response)) [
  | false ↦ do
    error ← string_or fuel response.body (codes "error") (codes "oidc_discovery_failed")
    ok (record {
      accepted = false;
      http_status = effective_status response;
      error = error;
      endpoints = endpoints;
    })
  | true ↦ ok (record {
    accepted = true;
    http_status = effective_status response;
    error = [];
    endpoints = endpoints;
  })
]

unfoldable pub read_discovery : ℕ → Bytes → Bytes → Response → Result DiscoveryResult
read_discovery fuel base_url realm response = do
  endpoints ← read_endpoints fuel base_url realm response.body
  discovered fuel response endpoints

unfoldable pub discover :
    {W : Type 0} → HttpClient W → ℕ → Bytes → Bytes → W → W × Result DiscoveryResult
discover send fuel base_url realm w =
    answer (read_discovery fuel base_url realm)
      (deliver send (make_json_get (discovery_endpoint base_url realm) none) w)

discovered-endpoints :
    (fuel : ℕ) (response : Response) (endpoints : OidcEndpoints) (result : DiscoveryResult)
    → discovered fuel response endpoints ≡ ok result
    → (result.endpoints ≡ endpoints) × (result.accepted ≡ is_success (effective_status response))
unfolding discovered
discovered-endpoints fuel response endpoints result h = ground arith

-- Every address is read from the document or is the default.
abbrev pub IsRead : ℕ → Bytes → Bytes → Bytes → OidcEndpoints → Type 0
IsRead fuel base_url realm body endpoints =
    (string_or fuel body (codes "issuer") (realm_root base_url realm) ≡ ok endpoints.issuer)
    × (string_or fuel body (codes "authorization_endpoint") (authorization_endpoint base_url realm)
        ≡ ok endpoints.authorization_endpoint)
    × (string_or fuel body (codes "token_endpoint") (token_endpoint base_url realm)
        ≡ ok endpoints.token_endpoint)
    × (string_or fuel body (codes "jwks_uri") (jwks_endpoint base_url realm)
        ≡ ok endpoints.jwks_uri)
    × (string_or fuel body (codes "userinfo_endpoint") (userinfo_endpoint base_url realm)
        ≡ ok endpoints.userinfo_endpoint)
    × (string_or fuel body (codes "revocation_endpoint") (revocation_endpoint base_url realm)
        ≡ ok endpoints.revocation_endpoint)
    × (string_or fuel body (codes "introspection_endpoint") (introspection_endpoint base_url realm)
        ≡ ok endpoints.introspection_endpoint)
    × (string_or fuel body (codes "end_session_endpoint") (logout_endpoint base_url realm)
        ≡ ok endpoints.end_session_endpoint)

read_endpoints-IsRead :
    (fuel : ℕ) (base_url realm body : Bytes) (endpoints : OidcEndpoints)
    → read_endpoints fuel base_url realm body ≡ ok endpoints
    → IsRead fuel base_url realm body endpoints
unfolding read_endpoints
read_endpoints-IsRead fuel base_url realm body endpoints h = (
  ground arith,
  ground arith,
  ground arith,
  ground arith,
  ground arith,
  ground arith,
  ground arith,
  ground arith,
)

-- A discovery that returns has each address from its own member of the document, or else from Keycloak's
-- path for the realm, and is accepted exactly where the status is from 200 to 299.
pub read_discovery-IsRead :
    (fuel : ℕ) (base_url realm : Bytes) (response : Response) (result : DiscoveryResult)
    → read_discovery fuel base_url realm response ≡ ok result
    → IsRead fuel base_url realm response.body result.endpoints
      × (result.accepted ≡ is_success (effective_status response))
unfolding read_discovery
read_discovery-IsRead fuel base_url realm response result h =
    let (endpoints, d, e) =
      ok_inv (read_endpoints fuel base_url realm response.body) (discovered fuel response) h in
    let (same, accepted) = discovered-endpoints fuel response endpoints result d in
    (rw same (read_endpoints-IsRead fuel base_url realm response.body endpoints e), accepted)
