-- ===== src/Client/MultiRealm/Binding.antt =====
-- A login from the URL that the user is sent to, to the request that redeems the code: the two carry the
-- same secret, the one its hash and the other its text.
use uidentity.Base.{
  ℕ, ◌≤◌, [], ◌∷◌, Option, none, some, Bytes, codes, lookup, insert_or_assign, eq_bytes, length,
  split_first, All, All-map, IsByte, Result, ok, err, ◌>>=◌, ◌≡◌, ◌≢◌, refl, ◌∙◌, ap, arith,
}
use uidentity.Base.Int.{ℤ}
use uidentity.Utils.UrlEncode.RoundTrip.{IsUnreserved}
use uidentity.Http.{Uri, Request}
use uidentity.Jwt.Base64RoundTrip.{rfc4648_url, rfc4648_url-IsByte}
use uidentity.Oidc.Endpoints.{token_endpoint}
use uidentity.Oidc.Form.{build_form_body, parse_form_encoded}
use uidentity.Oidc.Form.RoundTrip.{assign_all}
use uidentity.Oidc.Uri.{parse_absolute_uri}
use uidentity.Oidc.Requests.{request_to, with_bearer, make_form_post}
use uidentity.Pkce.{PkcePair, Library, generate_pkce_pair}
use uidentity.Pkce.Shape.{KeepsPromises, GoodPair, generate_pkce_pair-GoodPair}
use uidentity.StateStore.Entry.{StateEntry}
use uidentity.OAuth.TokenService.{
  TokenServiceConfig, exchange_fields, parse_token_response, exchange_authorization_code,
}
use uidentity.OAuth.TokenService.Laws.{exchange-sends}
use uidentity.OAuth.TokenService.Laws
use uidentity.Auth.PkceStrategy.{
  KeycloakRealmConfig, AuthStart, config_authorization_endpoint, authorization_params,
  create_authorization_url,
}
use uidentity.Auth.PkceStrategy.Url.{authorization_url-carries}
use uidentity.Auth.PkceStrategy.Url
use uidentity.Validator.Keys.{HttpClient}
use uidentity.Client.Store.{Store, KeepsStates, callback_of, exchanged}
use uidentity.Client.MultiRealm.{
  RealmRuntime, MultiRealmManager, lookup_realm, start_login, complete_login,
}
use uidentity.Client.MultiRealm.Realms.{IsNamed}
use uidentity.Client.MultiRealm.Login.{complete_login-start_login_of_realm, entry_of}

params_state :
    (cfg : KeycloakRealmConfig) (state : Bytes) (pkce : PkcePair)
    → (lookup (codes "state") (assign_all (authorization_params cfg state pkce) []) ≡ some state)
      × (lookup (codes "code_challenge") (assign_all (authorization_params cfg state pkce) [])
          ≡ some pkce.code_challenge)
unfolding lookup insert_or_assign eq_bytes authorization_params
params_state cfg state pkce = (refl, refl)

abbrev CarriesGrant : TokenServiceConfig → Bytes → Bytes → Option Bytes → Type 0
CarriesGrant cfg code verifier secret =
    cfg.client_secret ≡ secret
    → (lookup (codes "code") (assign_all (exchange_fields cfg code verifier) []) ≡ some code)
      × (lookup (codes "code_verifier") (assign_all (exchange_fields cfg code verifier) [])
          ≡ some verifier)

fields_grant :
    (cfg : TokenServiceConfig) (code verifier : Bytes) (secret : Option Bytes)
    → CarriesGrant cfg code verifier secret
unfolding lookup insert_or_assign eq_bytes exchange_fields
fields_grant cfg code verifier none e = rw (e, exchange_fields) (refl, refl)
fields_grant cfg code verifier (some secret) e = rw (e, exchange_fields) (refl, refl)

IsUnreserved-IsByte : (c : ℕ) → IsUnreserved c → IsByte c
IsUnreserved-IsByte c h = ground arith

form_post_of :
    (url body : Bytes) (uri : Uri) (m : Result Request)
    → parse_absolute_uri url ≡ ok uri
    → make_form_post url body none ≡ m
    → (request : Request) × (m ≡ ok request) × (request.uri ≡ uri)
unfolding make_form_post with_bearer request_to
form_post_of url body uri (ok request) h e = (request, refl, ground (arith, h))
form_post_of url body uri (err x) h e = absurd (ground (arith, h))

make_form_post-ok :
    (url body : Bytes) (uri : Uri)
    → parse_absolute_uri url ≡ ok uri
    → (request : Request) × (make_form_post url body none ≡ ok request) × (request.uri ≡ uri)
make_form_post-ok url body uri h = form_post_of url body uri _ h refl

verifier-ne-nil : (verifier : Bytes) → 43 ≤ length verifier → verifier ≢ []
verifier-ne-nil [] h e = absurd (omega arith)
verifier-ne-nil (c ∷ s) h e = cc

exchanged-parts :
    {W : Type 0} (send : HttpClient W) (fuel : ℕ) (cfg : TokenServiceConfig)
    (realm code verifier : Bytes) (w : W) (request : Request)
    → exchange_authorization_code send fuel cfg code verifier w ≡ (
      (send request w).0,
      parse_token_response fuel (codes "token_exchange_failed") (send request w).1,
    )
    → exchanged (exchange_authorization_code send fuel cfg) realm code verifier w ≡ (
      (send request w).0,
      parse_token_response fuel (codes "token_exchange_failed") (send request w).1 >>= λ r.
          ok (callback_of realm r),
    )
unfolding exchanged
exchanged-parts send fuel cfg realm code verifier w request h = ground arith

-- What a login and its callback show to the world: the address that the user is sent to, and the request.
pub record Bound (library : Library) (cfg : KeycloakRealmConfig) (endpoint : Uri)
    (start : AuthStart) (code verifier hash query : Bytes) (request : Request) : Type 0 where
  pub address :
      split_first b'?' start.authorization_url ≡ (config_authorization_endpoint cfg, some query)
  pub state : lookup (codes "state") (parse_form_encoded query) ≡ some start.state
  pub challenge :
      lookup (codes "code_challenge") (parse_form_encoded query) ≡ some (rfc4648_url hash)
  pub secret : library.sha256 verifier ≡ some hash
  pub posted : request.method_token ≡ codes "POST"
  pub target : request.uri ≡ endpoint
  pub redeems : lookup (codes "code") (parse_form_encoded request.body) ≡ some code
  pub shows : lookup (codes "code_verifier") (parse_form_encoded request.body) ≡ some verifier

to_Bound :
    (library : Library) (promises : KeepsPromises library) (cfg : KeycloakRealmConfig)
    (token_cfg : TokenServiceConfig) (endpoint : Uri) (start : AuthStart) (code : Bytes) (n : ℕ)
    (pkce : PkcePair) (request : Request)
    → GoodPair library n pkce
    → start ≡ create_authorization_url cfg start.state pkce
    → Url.IsConfig cfg
    → All IsByte start.state
    → request.method_token ≡ codes "POST"
    → request.uri ≡ endpoint
    → parse_form_encoded request.body
      ≡ assign_all (exchange_fields token_cfg code pkce.code_verifier) []
    → (hash : Bytes) × (query : Bytes) × Bound library cfg endpoint start code pkce.code_verifier
        hash query request
to_Bound library promises cfg token_cfg endpoint start code n pkce request good e uc bs m t f =
    let (hash, digest, challenge) = good.challenge in
    let small : All IsByte pkce.code_challenge =
      rw challenge (rfc4648_url-IsByte hash (promises.hashes pkce.code_verifier hash digest)) in
    let (_, (query, split, parsed)) = authorization_url-carries cfg start.state pkce uc bs small in
    let (state, carried) = params_state cfg start.state pkce in
    let (redeems, shows) = fields_grant token_cfg code pkce.code_verifier _ refl in
    (
      hash,
      query,
      record {
        address = ap (λ (x : AuthStart). split_first b'?' x.authorization_url) e ∙ split;
        state = ap (lookup (codes "state")) parsed ∙ state;
        challenge = ap (lookup (codes "code_challenge")) parsed ∙ carried ∙ ap some challenge;
        secret = digest;
        posted = m;
        target = t;
        redeems = ap (lookup (codes "code")) f ∙ redeems;
        shows = ap (lookup (codes "code_verifier")) f ∙ shows;
      },
    )

module _ {S W : Type 0} (store : Store S) (IsKept : StateEntry → ℤ → Type 0)
    (kept : KeepsStates store IsKept) (library : Library) (promises : KeepsPromises library)
    (send : HttpClient W) (fuel : ℕ) (manager : MultiRealmManager) where
  -- Over a store that keeps its states, with an OpenSSL that keeps its promises, for a manager whose
  -- runtimes stand under their own names: where a login of a realm is started and called back, with a code
  -- and the state of bytes that are not empty and before any other call of the store, there is a verifier
  -- whose SHA-256 hash, in base64url, is the challenge in the query of the URL that the user is sent to,
  -- next to the state; exactly one request goes out, a POST to the realm's token endpoint, and its body has
  -- the code and that verifier. The result is read off its response, under the realm's name. The
  -- configurations are of bytes, the base of the URL has no question mark, the token endpoint is an address
  -- that can be parsed, and the store keeps every verifier of bytes.
  pub complete_login_binds :
      (realm : Bytes) (runtime : RealmRuntime) (ttl : ℤ) (s : S) (w : W) (start : AuthStart)
      (code : Bytes) (endpoint : Uri)
      → IsNamed manager
      → lookup_realm manager realm ≡ ok runtime
      → (start_login store library send fuel manager realm ttl s).1 ≡ ok start
      → Url.IsConfig runtime.realm_cfg
      → Laws.IsConfig runtime.token_cfg
      → parse_absolute_uri (token_endpoint runtime.token_cfg.base_url runtime.token_cfg.realm)
        ≡ ok endpoint
      → code ≢ []
      → All IsByte code
      → start.state ≢ []
      → All IsByte start.state
      → ((verifier : Bytes)
          → verifier ≢ []
          → All IsByte verifier
          → IsKept (record { code_verifier = verifier; realm = runtime.realm_cfg.realm }) ttl)
      → let s' = (start_login store library send fuel manager realm ttl s).0 in
        let done =
          complete_login store library send fuel manager
            (record { code = code; state = start.state })
            (s', w) in
        (verifier : Bytes) × (hash : Bytes) × (query : Bytes) × (request : Request) × Bound library
          runtime.realm_cfg endpoint start code verifier hash query request
        × (done.0.1 ≡ (send request w).0)
        × (done.1 ≡ (
            parse_token_response fuel (codes "token_exchange_failed") (send request w).1 >>= λ r.
            ok (callback_of realm r)))
  complete_login_binds realm runtime ttl s w start code endpoint named l h uc tc parsed hc bc hs bs
        good =
      let pair_IsKept : (pkce : PkcePair)
          → generate_pkce_pair library runtime.realm_cfg.pkce_verifier_len ≡ ok pkce
          → IsKept (entry_of runtime pkce) ttl =
        λ pkce made.
          let pair = generate_pkce_pair-GoodPair library _ pkce promises made in
          good pkce.code_verifier (verifier-ne-nil pkce.code_verifier pair.bounds.0)
            (All-map IsUnreserved-IsByte pkce.code_verifier pair.letters) in
      let (pkce, made, url, result, network) =
        complete_login-start_login_of_realm store IsKept kept library send fuel manager realm
          runtime ttl s w start code named l h hc hs pair_IsKept in
      let pair = generate_pkce_pair-GoodPair library _ pkce promises made in
      let (request, posted, target) =
        make_form_post-ok _
          (build_form_body (exchange_fields runtime.token_cfg code pkce.code_verifier)) endpoint
          parsed in
      let (sent, method, fields) =
        exchange-sends send fuel runtime.token_cfg code pkce.code_verifier w request tc bc
          (All-map IsUnreserved-IsByte pkce.code_verifier pair.letters) hc
          (verifier-ne-nil pkce.code_verifier pair.bounds.0) posted in
      let (hash, query, bound) =
        to_Bound library promises runtime.realm_cfg runtime.token_cfg endpoint start code _ pkce
          request pair url uc bs method target fields in
      let parts =
        exchanged-parts send fuel runtime.token_cfg realm code pkce.code_verifier w request sent in
      (
        pkce.code_verifier,
        hash,
        query,
        request,
        bound,
        network ∙ ap (λ p. p.0) parts,
        result ∙ ap (λ p. p.1) parts,
      )
