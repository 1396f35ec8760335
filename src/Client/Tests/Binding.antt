-- ===== src/Client/Tests/Binding.antt =====
-- What a login and its callback carry, at a concrete realm.
use uidentity.Base.{[], codes, ok, ◌≡◌, refl, arith, All, IsByte}
use uidentity.Http.{Uri}
use uidentity.Json.Running.{json_code}
use uidentity.Oidc.Endpoints.{token_endpoint, realm_root, trim_trailing_slash}
use uidentity.Oidc.Uri.{parse_absolute_uri, split_at_last, split_scheme, split_authority, path_part}
use uidentity.Utils.UrlEncode.{url_encode, encode_byte, should_encode}
use uidentity.OAuth.TokenService.Laws
use uidentity.Auth.PkceStrategy.Url
use uidentity.Client.Tests.{realm_config, token_config, some_start, state_given}

abbrev pub endpoint : Uri
endpoint = record {
  scheme = codes "https";
  host = codes "k";
  port = 0;
  path = codes "/realms/main/protocol/openid-connect/token";
  query = [];
}

pub endpoint_parsed :
    parse_absolute_uri (token_endpoint token_config.base_url token_config.realm) ≡ ok endpoint
unfolding token_endpoint realm_root trim_trailing_slash parse_absolute_uri split_at_last
    split_scheme split_authority path_part json_code url_encode encode_byte should_encode
endpoint_parsed = refl

pub realm_IsConfig : Url.IsConfig realm_config
realm_IsConfig = (omega arith, omega arith, omega arith, omega arith, tt)

pub token_IsConfig : Laws.IsConfig token_config
token_IsConfig = (omega arith, omega arith, λ secret e. cc)

pub state_bytes : All IsByte some_start.state
state_bytes = rw state_given (omega arith)
