-- ===== src/Http.antt =====
-- include/uidentity/api_models/http_context.hpp, and the messages of the unet library as far as the code
-- reads and writes them: a header field is a name and a value, in the order in which they were added.
use uidentity.Base.{ℕ, Bool, false, List, [], ◌∷◌, ◌++◌, Option, some, Bytes}
use uidentity.Base.Int.{ℤ}

pub record Uri : Type 0 where
  pub scheme : Bytes
  pub host : Bytes
  pub port : ℕ
  pub path : Bytes
  pub query : Bytes

pub record RequestContext : Type 0 where
  pub authenticated : Bool
  pub sub : Bytes
  pub preferred_username : Bytes
  pub realm : Bytes
  pub issuer : Bytes
  pub client_id : Bytes
  pub roles : List Bytes
  pub scopes : List Bytes

-- `RequestContext{}`
abbrev pub no_context : RequestContext
no_context = record {
  authenticated = false;
  sub = [];
  preferred_username = [];
  realm = [];
  issuer = [];
  client_id = [];
  roles = [];
  scopes = [];
}

pub record AuthConfig : Type 0 where
  pub expected_issuer : Bytes
  pub jwks_url : Bytes
  pub jwks_cache_ttl : ℤ
  pub require_audience : Bool
  pub expected_audience : Bytes
  pub expected_azp : Bytes
  pub clock_skew_seconds : ℤ

pub record AuthResult : Type 0 where
  pub ok : Bool
  pub http_status : ℕ
  pub error : Bytes

-- `user_data` is a `std::any` that holds a context or something else.
pub record Request : Type 0 where
  pub method_token : Bytes
  pub uri : Uri
  pub authority : Bytes
  pub headers : List (Bytes × Bytes)
  pub body : Bytes
  pub user_data : Option RequestContext

pub record Response : Type 0 where
  pub status_code : ℕ
  pub headers : List (Bytes × Bytes)
  pub body : Bytes

-- `std::any_cast<RequestContext>(&request.user_data)`
unfoldable pub get_request_context : Request → Option RequestContext
get_request_context request = request.user_data

unfoldable pub set_request_context : Request → RequestContext → Request
set_request_context request context = record request { user_data = some context }

abbrev pub add_header : Bytes → Bytes → Request → Request
add_header name value request = record request { headers = request.headers ++ (name, value) ∷ [] }
