-- ===== src/Auth/PkceStrategy/Url.antt =====
-- What the authorization URL carries.
use uidentity.Base.{
  List, [], ◌∷◌, some, Bytes, codes, split_first, split_first-append, ◌≡◌, refl, arith, All,
  All-append, IsByte, Lacks,
}
use uidentity.Utils.UrlEncode.{url_encode}
use uidentity.Oidc.Form.{build_form_body, parse_form_encoded}
use uidentity.Oidc.Form.RoundTrip.{
  IsField, assign_all, url_encode-Lacks, parse_form_encoded-build_form_body,
}
use uidentity.Pkce.{PkcePair}
use uidentity.Auth.PkceStrategy.{
  KeycloakRealmConfig, build_query, config_authorization_endpoint, more_scopes, join_scopes,
  authorization_params, create_authorization_url,
}

-- A configuration of bytes, with a base that has no query.
abbrev pub IsConfig : KeycloakRealmConfig → Type 0
IsConfig cfg =
    Lacks b'?' cfg.base_url
    × All IsByte cfg.realm
    × All IsByte cfg.client_id
    × All IsByte cfg.redirect_uri
    × All (All IsByte) cfg.scopes

more_scopes-IsByte : (ss : List Bytes) → All (All IsByte) ss → All IsByte (more_scopes ss)
unfolding more_scopes
more_scopes-IsByte [] h = tt
more_scopes-IsByte (s ∷ ss) (h, hs) =
    (omega arith, All-append _ s (more_scopes ss) h (more_scopes-IsByte ss hs))

join_scopes-IsByte : (ss : List Bytes) → All (All IsByte) ss → All IsByte (join_scopes ss)
unfolding join_scopes
join_scopes-IsByte [] h = tt
join_scopes-IsByte (s ∷ ss) (h, hs) = All-append _ s (more_scopes ss) h (more_scopes-IsByte ss hs)

endpoint-Lacks :
    (cfg : KeycloakRealmConfig) → IsConfig cfg → Lacks b'?' (config_authorization_endpoint cfg)
unfolding config_authorization_endpoint
endpoint-Lacks cfg (hb, hr, _, _, _) = All-append _ cfg.base_url _ hb (
    All-append _ (codes "/realms/") _ (omega arith) (
      All-append _ (url_encode cfg.realm) _ (url_encode-Lacks b'?' cfg.realm (λ u. ground arith) hr)
        (omega arith)))

params-IsField :
    (cfg : KeycloakRealmConfig) (state : Bytes) (pkce : PkcePair)
    → IsConfig cfg
    → All IsByte state
    → All IsByte pkce.code_challenge
    → All IsField (authorization_params cfg state pkce)
unfolding authorization_params
params-IsField cfg state pkce (_, _, hc, hr, hs) h k = (
  (omega arith, omega arith),
  (
    (omega arith, hc),
    (
      (omega arith, hr),
      (
        (omega arith, h),
        (
          (omega arith, k),
          ((omega arith, omega arith), ((omega arith, join_scopes-IsByte cfg.scopes hs), tt)),
        ),
      ),
    ),
  ),
)

-- The text behind the first question mark of the authorization URL parses to the parameters of the
-- request, for a configuration, a state and a challenge of bytes, and a base without a question mark. The
-- state of the result is the one that was given.
pub authorization_url-carries :
    (cfg : KeycloakRealmConfig) (state : Bytes) (pkce : PkcePair)
    → IsConfig cfg
    → All IsByte state
    → All IsByte pkce.code_challenge
    → let start = create_authorization_url cfg state pkce in
      (start.state ≡ state)
      × ((query : Bytes) × (split_first b'?' start.authorization_url
            ≡ (config_authorization_endpoint cfg, some query))
          × (parse_form_encoded query ≡ assign_all (authorization_params cfg state pkce) []))
unfolding create_authorization_url build_query
authorization_url-carries cfg state pkce c h k = (
  refl,
  (
    build_form_body (authorization_params cfg state pkce),
    split_first-append b'?' (config_authorization_endpoint cfg) _ (endpoint-Lacks cfg c),
    parse_form_encoded-build_form_body _ (params-IsField cfg state pkce c h k),
  ),
)
