-- ===== src/Oidc/Endpoints.antt =====
-- The endpoint addresses of oidc_utils.hpp.
use uidentity.Base.{ℕ, [], ◌∷◌, ◌++◌, Option, none, some, Bytes, codes, ◌==◌, if◌then◌else◌}
use uidentity.Utils.UrlEncode.{url_encode}

-- A byte in front of a text whose trailing slashes are gone: a slash stays if something is left.
keep_front : ℕ → Bytes → Bytes
keep_front c [] = if c == b'/' then [] else c ∷ []
keep_front c (d ∷ s) = c ∷ d ∷ s

-- `while (!value.empty() && value.back() == '/') value.pop_back();`
unfoldable pub trim_trailing_slash : Bytes → Bytes
unfolding keep_front
trim_trailing_slash [] = []
trim_trailing_slash (c ∷ s) = keep_front c (trim_trailing_slash s)

unfoldable pub realm_root : Bytes → Bytes → Bytes
realm_root base_url realm = trim_trailing_slash base_url ++ (codes "/realms/" ++ url_encode realm)

unfoldable pub authorization_endpoint : Bytes → Bytes → Bytes
authorization_endpoint base_url realm =
    realm_root base_url realm ++ codes "/protocol/openid-connect/auth"

unfoldable pub token_endpoint : Bytes → Bytes → Bytes
token_endpoint base_url realm = realm_root base_url realm ++ codes "/protocol/openid-connect/token"

unfoldable pub jwks_endpoint : Bytes → Bytes → Bytes
jwks_endpoint base_url realm = realm_root base_url realm ++ codes "/protocol/openid-connect/certs"

unfoldable pub userinfo_endpoint : Bytes → Bytes → Bytes
userinfo_endpoint base_url realm =
    realm_root base_url realm ++ codes "/protocol/openid-connect/userinfo"

unfoldable pub revocation_endpoint : Bytes → Bytes → Bytes
revocation_endpoint base_url realm =
    realm_root base_url realm ++ codes "/protocol/openid-connect/revoke"

unfoldable pub introspection_endpoint : Bytes → Bytes → Bytes
introspection_endpoint base_url realm =
    realm_root base_url realm ++ codes "/protocol/openid-connect/token/introspect"

unfoldable pub logout_endpoint : Bytes → Bytes → Bytes
logout_endpoint base_url realm =
    realm_root base_url realm ++ codes "/protocol/openid-connect/logout"

unfoldable pub discovery_endpoint : Bytes → Bytes → Bytes
discovery_endpoint base_url realm =
    realm_root base_url realm ++ codes "/.well-known/openid-configuration"

-- The text behind the last slash, or all of it: `rfind('/')`.
unfoldable pub behind_last_slash : Bytes → Option Bytes
behind_last_slash [] = none
behind_last_slash (c ∷ s) = elim (behind_last_slash s) [
  | some rest ↦ some rest
  | none ↦ if c == b'/' then some s else none
]

unfoldable pub last_path_segment : Bytes → Bytes
last_path_segment value =
    let trimmed = trim_trailing_slash value in
    elim (behind_last_slash trimmed) [ none ↦ trimmed | some segment ↦ segment ]
