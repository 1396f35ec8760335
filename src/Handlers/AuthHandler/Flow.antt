-- ===== src/Handlers/AuthHandler/Flow.antt =====
-- A whole login over HTTP: from the request for it to the answer to the redirect back.
use uidentity.Base.{
  ℕ, false, true, [], some, Bytes, codes, eq_bytes, has_value, Result, ok, err, ◌>>=◌, ◌≡◌, ◌≢◌,
  ◌∙◌, ap, arith, All, IsByte,
}
use uidentity.Base.Int.{ℤ, pos}
use uidentity.Http.{Uri, Request, Response}
use uidentity.Oidc.Endpoints.{token_endpoint}
use uidentity.Oidc.Form.{build_form_body, parse_form_encoded}
use uidentity.Oidc.Uri.{parse_absolute_uri}
use uidentity.Pkce.{Library}
use uidentity.Pkce.Shape.{KeepsPromises}
use uidentity.StateStore.Entry.{StateEntry}
use uidentity.Validator.Keys.{HttpClient}
use uidentity.OAuth.Types.{OAuthResult}
use uidentity.OAuth.TokenService.{parse_token_response}
use uidentity.OAuth.TokenService.Laws
use uidentity.Auth.PkceStrategy.{AuthStart}
use uidentity.Auth.PkceStrategy.Url
use uidentity.Client.Store.{Store, KeepsStates, CallbackResult, callback_of}
use uidentity.Client.MultiRealm.{
  RealmRuntime, MultiRealmManager, has_realm, lookup_realm, start_login,
}
use uidentity.Client.MultiRealm.Realms.{IsNamed}
use uidentity.Client.MultiRealm.Login.{lookup_realm-ok}
use uidentity.Client.MultiRealm.Binding.{Bound, complete_login_binds}
use uidentity.Handlers.AuthHandler.{
  AuthHandlerConfig, realm_param, login, login_reply, callback, callback_reply, replied,
}
use uidentity.Handlers.AuthHandler.Callback.{redirect_fields}
use uidentity.Handlers.AuthHandler.Realms.{realm_calls, completed_by, callback-complete_login}

has_realm-lookup_realm :
    (manager : MultiRealmManager) (realm : Bytes) (runtime : RealmRuntime)
    → lookup_realm manager realm ≡ ok runtime
    → has_realm manager realm ≡ true
unfolding has_realm
has_realm-lookup_realm manager realm runtime l =
    ap has_value (lookup_realm-ok manager realm runtime l)

reply_of_exchange :
    {X : Type 0} (config : AuthHandlerConfig) (response : Response) (realm : Bytes)
    (r : Result OAuthResult) (done : X × Result CallbackResult)
    → done.1 ≡ (r >>= λ a. ok (callback_of realm a))
    → (replied (λ result. callback_reply config result response) done).1
      ≡ (r >>= λ a. ok (callback_reply config (callback_of realm a) response))
reply_of_exchange config response realm (err e) (x, err e') h =
    let same : e' ≡ e = cc in ap err same
reply_of_exchange config response realm (err e) (x, ok b) h = cc
reply_of_exchange config response realm (ok a) (x, err e) h = cc
reply_of_exchange config response realm (ok a) (x, ok b) h =
    let same : b ≡ callback_of realm a = cc in ap (λ c. ok (callback_reply config c response)) same

module _ {S W : Type 0} (store : Store S) (library : Library) (send : HttpClient W) (fuel : ℕ)
    (manager : MultiRealmManager) where
  login_of :
      (config : AuthHandlerConfig) (request : Request) (response : Response) (s : S) (w : W)
      (realm : Bytes) (runtime : RealmRuntime) (start : AuthStart)
      → realm_param (parse_form_encoded request.uri.query) ≡ some realm
      → lookup_realm manager realm ≡ ok runtime
      → (start_login store library send fuel manager realm (pos 300) s).1 ≡ ok start
      → login (realm_calls store library send fuel manager) config request response (s, w) ≡ (
        ((start_login store library send fuel manager realm (pos 300) s).0, w),
        ok (login_reply start response),
      )
  unfolding login
  login_of config request response s w realm runtime start p l h =
      ground (arith, has_realm-lookup_realm manager realm runtime l)

  -- A whole login over HTTP. Over a store that keeps its states, with an OpenSSL that keeps its promises,
  -- for a manager whose runtimes stand under their own names: the request for a login of a realm is answered
  -- with a redirect to the URL of the start, and the redirect back, with a code and the state of that start
  -- and before any other call of the store, sends exactly one request, a POST to the realm's token endpoint.
  -- There is a verifier whose SHA-256 hash, in base64url, is the challenge in the query of the URL, next to
  -- the state, and which the request's body has, next to the code. The answer to the redirect back is read
  -- off the response. The code and the state are of bytes and not empty, the redirect back is no POST, the
  -- configurations are of bytes, the base of the URL has no question mark, the token endpoint is an address
  -- that can be parsed, and the store keeps every verifier of bytes.
  pub callback-login :
      (IsKept : StateEntry → ℤ → Type 0)
      → KeepsStates store IsKept
      → KeepsPromises library
      → (config : AuthHandlerConfig) (request back : Request) (response response' : Response)
        (s : S) (w : W) (realm : Bytes) (runtime : RealmRuntime) (start : AuthStart) (code : Bytes)
        (endpoint : Uri)
      → IsNamed manager
      → realm_param (parse_form_encoded request.uri.query) ≡ some realm
      → lookup_realm manager realm ≡ ok runtime
      → (start_login store library send fuel manager realm (pos 300) s).1 ≡ ok start
      → eq_bytes back.method_token (codes "POST") ≡ false
      → back.uri.query ≡ build_form_body (redirect_fields code start.state)
      → Url.IsConfig runtime.realm_cfg
      → Laws.IsConfig runtime.token_cfg
      → parse_absolute_uri (token_endpoint runtime.token_cfg.base_url runtime.token_cfg.realm)
        ≡ ok endpoint
      → code ≢ []
      → All IsByte code
      → start.state ≢ []
      → All IsByte start.state
      → ((verifier : Bytes)
          → verifier ≢ []
          → All IsByte verifier
          → IsKept (record { code_verifier = verifier; realm = runtime.realm_cfg.realm }) (pos 300))
      → let calls = realm_calls store library send fuel manager in
        let first = login calls config request response (s, w) in
        let second = callback calls config back response' first.0 in
        (first.1 ≡ ok (login_reply start response))
        × ((verifier : Bytes) × (hash : Bytes) × (query : Bytes) × (sent : Request) × Bound library
              runtime.realm_cfg endpoint start code verifier hash query sent
            × (second.0.1 ≡ (send sent w).0)
            × (second.1 ≡ (
                parse_token_response fuel (codes "token_exchange_failed") (send sent w).1 >>= λ r.
                ok (callback_reply config (callback_of realm r) response'))))
  callback-login IsKept kept promises config request back response response' s w realm runtime start
        code endpoint named p l h m q uc tc parsed nc bc ns bs good =
      let first = login_of config request response s w realm runtime start p l h in
      let s' = (start_login store library send fuel manager realm (pos 300) s).0 in
      let left : (login (realm_calls store library send fuel manager) config request response
            (s, w)).0
          ≡ (s', w) =
        ap (λ r. r.0) first in
      let (verifier, hash, query, sent, bound, network, result) =
        complete_login_binds store IsKept kept library promises send fuel manager realm runtime
          (pos 300) s w start code endpoint named l h uc tc parsed nc bc ns bs good in
      let (after, _) =
        completed_by store library send fuel manager config back response' (s', w) code start.state
          m q bc bs in
      let whole =
        callback-complete_login store library send fuel manager config back response' (s', w) code
          start.state m q bc bs in
      (
        ap (λ r. r.1) first,
        rw left (
          verifier,
          hash,
          query,
          sent,
          bound,
          ap (λ x. x.1) after ∙ network,
          ap (λ r. r.1) whole ∙ reply_of_exchange config response' realm _ _ result,
        ),
      )
