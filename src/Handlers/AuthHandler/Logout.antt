-- ===== src/Handlers/AuthHandler/Logout.antt =====
-- A logout with the cookies that a callback has set.
use uidentity.Base.{
  true, [], ◌∷◌, ◌++◌, some, Bytes, codes, lookup, lookup-insert, insert_or_assign, eq_bytes_refl,
  split_first, ok, if◌then◌else◌, All, IsByte, eq_bytes, ◌≡◌, ◌≢◌, refl, ◌∙◌, sym, ap, arith,
}
use uidentity.Http.{Request, Response}
use uidentity.Utils.Cookies.{
  HeaderValue, get_cookie, parse_cookie_header, make_set_cookie, token_cookie_options,
}
use uidentity.Utils.Cookies.RoundTrip.{
  IsCookie, assign_cookies, sent_back-pair_text, parse_cookie_header-make_set_cookie,
}
use uidentity.Oidc.Form.{build_form_body, parse_form_encoded}
use uidentity.Oidc.Form.RoundTrip.{assign_all, parse_form_encoded-build_form_body}
use uidentity.OAuth.Types.{TokenSet}
use uidentity.Handlers.AuthHandler.{
  AuthHandlerConfig, Calls, token_cookie_config_for_realm, add_token_cookies, add_field, to_revoke,
  realm_param, unknown_realm, no_store, set_status, set_body, logout, logout_of, logout_reply,
  replied,
}

-- What the cookie text of an expression is up to its first semicolon.
abbrev pub cookie_of : Bytes → Bytes
cookie_of text = (split_first b';' text).0

-- The two cookies of a realm.
abbrev pub access_cookie : AuthHandlerConfig → Bytes → TokenSet → Bytes
access_cookie config realm tokens =
    let cookies = token_cookie_config_for_realm config realm in
    make_set_cookie cookies.access_token_name tokens.access_token
      (token_cookie_options cookies (some tokens.expires_in))

abbrev pub refresh_cookie : AuthHandlerConfig → Bytes → TokenSet → Bytes
refresh_cookie config realm tokens =
    let cookies = token_cookie_config_for_realm config realm in
    make_set_cookie cookies.refresh_token_name tokens.refresh_token
      (token_cookie_options cookies (some tokens.refresh_expires_in))

-- The names and the tokens are of bytes, and the two names are different.
abbrev pub IsSession : AuthHandlerConfig → Bytes → TokenSet → Type 0
IsSession config realm tokens =
    let cookies = token_cookie_config_for_realm config realm in
    IsCookie (cookies.access_token_name, tokens.access_token)
    × IsCookie (cookies.refresh_token_name, tokens.refresh_token)
    × (cookies.access_token_name ≢ cookies.refresh_token_name)
    × (tokens.refresh_token ≢ [])

second_found :
    (a r x y : Bytes) → a ≢ r → lookup r (assign_cookies ((a, x) ∷ (r, y) ∷ []) []) ≡ some y
second_found a r x y h =
    ground (arith, lookup-insert r r y (insert_or_assign a x []), eq_bytes_refl r)

module _ (header_value : HeaderValue) (config : AuthHandlerConfig) (realm : Bytes)
    (tokens : TokenSet) (request : Request) where
  cookies_read :
      IsSession config realm tokens
      → parse_cookie_header (
          cookie_of (access_cookie config realm tokens)
          ++ b';' ∷ 32 ∷ cookie_of (refresh_cookie config realm tokens))
        ≡ (let cookies = token_cookie_config_for_realm config realm in
            assign_cookies
              ((cookies.access_token_name, tokens.access_token)
                ∷ (cookies.refresh_token_name, tokens.refresh_token)
                ∷ [])
              [])
  cookies_read (ha, hr, _, _) =
      let cookies = token_cookie_config_for_realm config realm in
      let o = token_cookie_options cookies (some tokens.expires_in) in
      ap (λ t. parse_cookie_header (cookie_of (access_cookie config realm tokens) ++ b';' ∷ 32 ∷ t))
        (sent_back-pair_text _ (cookies.refresh_token_name, tokens.refresh_token) hr
          ∙ sym (sent_back-pair_text o (cookies.refresh_token_name, tokens.refresh_token) hr))
      ∙ parse_cookie_header-make_set_cookie o (cookies.access_token_name, tokens.access_token)
          ((cookies.refresh_token_name, tokens.refresh_token) ∷ []) ha (hr, tt)

  found :
      IsSession config realm tokens
      → header_value request.headers (codes "Cookie")
        ≡ some (
            cookie_of (access_cookie config realm tokens)
            ++ b';' ∷ 32 ∷ cookie_of (refresh_cookie config realm tokens))
      → get_cookie header_value request
          (token_cookie_config_for_realm config realm).refresh_token_name
        ≡ some tokens.refresh_token
  unfolding get_cookie
  found (ha, hr, ne, nn) e =
      let cookies = token_cookie_config_for_realm config realm in
      ground (
        arith,
        e,
        cookies_read (ha, hr, ne, nn),
        second_found cookies.access_token_name cookies.refresh_token_name tokens.access_token
            tokens.refresh_token ne,
      )

  revoked_of :
      (token : Bytes)
      → config.revoke_refresh_token_on_logout ≡ true
      → get_cookie header_value request
          (token_cookie_config_for_realm config realm).refresh_token_name
        ≡ some token
      → token ≢ []
      → to_revoke header_value config realm request ≡ some token
  unfolding to_revoke
  revoked_of [] on g ne = absurd (ne refl)
  revoked_of (c ∷ token) on g ne = ground arith

logout_of_lem :
    {X : Type 0} (calls : Calls X) (header_value : HeaderValue) (config : AuthHandlerConfig)
    (realm : Bytes) (tokens : TokenSet) (request : Request) (response : Response) (x : X)
    → IsSession config realm tokens
    → config.revoke_refresh_token_on_logout ≡ true
    → header_value request.headers (codes "Cookie")
      ≡ some (
          cookie_of (access_cookie config realm tokens)
          ++ b';' ∷ 32 ∷ cookie_of (refresh_cookie config realm tokens))
    → logout_of calls config header_value realm request response x
      ≡ replied
          (λ _. logout_reply config realm response)
          (calls.revoke_token realm tokens.refresh_token (codes "refresh_token") x)
unfolding logout_of
logout_of_lem calls header_value config realm tokens request response x session on e = ground (
  arith,
  revoked_of header_value config realm tokens request tokens.refresh_token on
      (found header_value config realm tokens request session e) session.3,
)

realm_read :
    (request : Request) (realm : Bytes)
    → request.uri.query ≡ build_form_body ((codes "realm", realm) ∷ [])
    → All IsByte realm
    → parse_form_encoded request.uri.query ≡ assign_all ((codes "realm", realm) ∷ []) []
realm_read request realm q h =
    ap parse_form_encoded q
    ∙ parse_form_encoded-build_form_body ((codes "realm", realm) ∷ []) ((omega arith, h), tt)

realm_param_of :
    (realm : Bytes)
    → realm ≢ []
    → realm_param (assign_all ((codes "realm", realm) ∷ []) []) ≡ some realm
unfolding realm_param lookup insert_or_assign eq_bytes
realm_param_of [] n = absurd (n refl)
realm_param_of (c ∷ realm) n = refl

-- A logout that names its realm in the query.
logout_named :
    {X : Type 0} (calls : Calls X) (header_value : HeaderValue) (config : AuthHandlerConfig)
    (realm : Bytes) (request : Request) (response : Response) (x : X)
    → realm_param (parse_form_encoded request.uri.query) ≡ some realm
    → logout calls config header_value request response x ≡ (
        if calls.service_has_realm realm
        then logout_of calls config header_value realm request response x
        else (
          x,
          ok (
              set_body unknown_realm (
                set_status 404 (
                  add_field
                    (codes "Content-Type")
                    (codes "application/json")
                    (no_store response)))),
        ))
unfolding logout
logout_named calls header_value config realm request response x h = ground (arith, h)

-- A callback sets two cookies for a realm. If a client sends them back, each up to its first semicolon,
-- with a logout whose query was written from the name of the realm, where revocation is on, then the
-- logout revokes the refresh token of the callback and answers as after every logout, for a realm that
-- the service has; for any other it answers with status 404 and revokes nothing. The two names of the
-- cookies are not empty and different, names and tokens are of bytes, the refresh token is not empty, and
-- the name of the realm is of bytes and not empty.
pub logout-revokes :
    {X : Type 0} (calls : Calls X) (header_value : HeaderValue) (config : AuthHandlerConfig)
    (realm : Bytes) (tokens : TokenSet) (request : Request) (before response : Response) (x : X)
    → IsSession config realm tokens
    → config.revoke_refresh_token_on_logout ≡ true
    → header_value request.headers (codes "Cookie")
      ≡ some (
          cookie_of (access_cookie config realm tokens)
          ++ b';' ∷ 32 ∷ cookie_of (refresh_cookie config realm tokens))
    → request.uri.query ≡ build_form_body ((codes "realm", realm) ∷ [])
    → All IsByte realm
    → realm ≢ []
    → (add_token_cookies config realm tokens before
        ≡ add_field
            (codes "Set-Cookie")
            (refresh_cookie config realm tokens)
            (add_field (codes "Set-Cookie") (access_cookie config realm tokens) before))
      × (logout calls config header_value request response x ≡ (
          if calls.service_has_realm realm
          then replied
              (λ _. logout_reply config realm response)
              (calls.revoke_token realm tokens.refresh_token (codes "refresh_token") x)
          else (
            x,
            ok (
                set_body unknown_realm (
                  set_status 404 (
                    add_field
                      (codes "Content-Type")
                      (codes "application/json")
                      (no_store response)))),
          )))
unfolding add_token_cookies
logout-revokes calls header_value config realm tokens request before response x session on e q h n =
    (
      refl,
      logout_named calls header_value config realm request response x
            (ap realm_param (realm_read request realm q h) ∙ realm_param_of realm n)
          ∙ rw
              (logout_of_lem calls header_value config realm tokens request response x session on e)
              refl,
    )
