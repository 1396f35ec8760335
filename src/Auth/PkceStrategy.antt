-- ===== src/Auth/PkceStrategy.antt =====
-- AuthStart and PkceAuthStrategy of auth/pkce_auth_strat.hpp, with KeycloakRealmConfig of config.hpp.
pub mod Url
use uidentity.Base.{
  ℕ, Bool, true, false, ◌||◌, List, [], ◌∷◌, ◌++◌, Bytes, codes, is_empty, if◌then◌else◌, Result,
  ok, err, Error,
}
use uidentity.Utils.UrlEncode.{url_encode}
use uidentity.Oidc.Form.{Fields, build_form_body}
use uidentity.Pkce.{PkcePair}

pub record KeycloakRealmConfig : Type 0 where
  pub base_url : Bytes
  pub realm : Bytes
  pub client_id : Bytes
  pub redirect_uri : Bytes
  pub scopes : List Bytes
  pub pkce_verifier_len : ℕ
  pub omit_default_port : Bool

pub record AuthStart : Type 0 where
  pub authorization_url : Bytes
  pub state : Bytes

-- `build_query` is the loop of `build_form_body`.
unfoldable pub build_query : Fields → Bytes
build_query params = build_form_body params

-- The overload of this header, which does not trim the base.
unfoldable pub config_authorization_endpoint : KeycloakRealmConfig → Bytes
config_authorization_endpoint cfg =
    cfg.base_url
    ++ (codes "/realms/" ++ (url_encode cfg.realm ++ codes "/protocol/openid-connect/auth"))

-- The rounds behind the first put a space in front.
unfoldable pub more_scopes : List Bytes → Bytes
more_scopes [] = []
more_scopes (s ∷ ss) = 32 ∷ (s ++ more_scopes ss)

unfoldable pub join_scopes : List Bytes → Bytes
join_scopes [] = []
join_scopes (s ∷ ss) = s ++ more_scopes ss

-- The constructor refuses a configuration that lacks a field.
unfoldable pub construct : KeycloakRealmConfig → Result KeycloakRealmConfig
construct cfg =
    if is_empty cfg.base_url
      || is_empty cfg.realm
      || is_empty cfg.client_id
      || is_empty cfg.redirect_uri
    then err (Error.runtime_error (codes "PkceAuthStrategy: missing required config fields"))
    else ok cfg

unfoldable pub authorization_params : KeycloakRealmConfig → Bytes → PkcePair → Fields
authorization_params cfg state pkce =
    (codes "response_type", codes "code")
    ∷ (codes "client_id", cfg.client_id)
    ∷ (codes "redirect_uri", cfg.redirect_uri)
    ∷ (codes "state", state)
    ∷ (codes "code_challenge", pkce.code_challenge)
    ∷ (codes "code_challenge_method", codes "S256")
    ∷ (codes "scope", join_scopes cfg.scopes)
    ∷ []

unfoldable pub create_authorization_url : KeycloakRealmConfig → Bytes → PkcePair → AuthStart
create_authorization_url cfg state pkce = record {
  authorization_url =
      config_authorization_endpoint cfg ++ b'?' ∷ build_query (authorization_params cfg state pkce);
  state = state;
}
