-- ===== src/Handlers/AuthHandler/Realms.antt =====
-- The handler over a manager of several realms, which is both its client and its token service.
use uidentity.Base.{
  ℕ, ◌++◌, false, [], ◌∷◌, Option, Bytes, codes, eq_bytes, Result, ok, err, ◌≡◌, ◌≢◌, refl, ◌∙◌, ap,
  All, IsByte,
}
use uidentity.Base.Int.{ℤ}
use uidentity.Http.{Request, Response}
use uidentity.Oidc.Form.{build_form_body}
use uidentity.Pkce.{Library}
use uidentity.StateStore.Entry.{StateEntry}
use uidentity.Validator.Keys.{HttpClient}
use uidentity.Client.Store.{Store, KeepsStates, CallbackResult, callback_refused}
use uidentity.Client.MultiRealm.{
  MultiRealmManager, has_realm, start_login, complete_login, revoke_token_of,
}
use uidentity.Client.MultiRealm.Replay.{complete_login_twice}
use uidentity.Handlers.AuthHandler.{
  AuthHandlerConfig, Calls, callback, callback_reply, replied, error_body,
}
use uidentity.Handlers.AuthHandler.Callback.{
  redirect_fields, callback-completes, refused_status, refused_body, refused_headers,
}

module _ {S W : Type 0} (store : Store S) (library : Library) (send : HttpClient W) (fuel : ℕ)
    (manager : MultiRealmManager) where
  abbrev pub realm_calls : Calls (S × W)
  realm_calls = record {
    has_realm = has_realm manager;
    start_login = λ realm ttl x.
        let r = start_login store library send fuel manager realm ttl x.0 in ((r.0, x.1), r.1);
    complete_login = λ input x. complete_login store library send fuel manager input x;
    service_has_realm = has_realm manager;
    revoke_token = λ realm token hint x.
        let r = revoke_token_of store library send fuel manager realm token hint x.1 in
        ((x.0, r.0), r.1);
  }

  replied-store : {A B : Type 0} (f : A → Response) (r : B × Result A) → (replied f r).0 ≡ r.0
  replied-store f (x, err e) = refl
  replied-store f (x, ok a) = refl

  replied-ok :
      {A B : Type 0} (f : A → Response) (r : B × Result A) (a : A)
      → r.1 ≡ ok a
      → (replied f r).1 ≡ ok (f a)
  replied-ok f (x, err e) a h = cc
  replied-ok f (x, ok b) a h = let same : b ≡ a = cc in ap (λ c. ok (f c)) same

  -- A redirect back, by the login that it completes.
  pub callback-complete_login :
      (config : AuthHandlerConfig) (request : Request) (response : Response) (x : S × W)
      (code state : Bytes)
      → eq_bytes request.method_token (codes "POST") ≡ false
      → request.uri.query ≡ build_form_body (redirect_fields code state)
      → All IsByte code
      → All IsByte state
      → callback realm_calls config request response x
        ≡ replied
            (λ result. callback_reply config result response)
            (complete_login store library send fuel manager
              (record { code = code; state = state })
              x)
  callback-complete_login config request response x code state m q hc hs =
      (callback-completes realm_calls config request response x code state m q hc hs).0

  pub completed_by :
      (config : AuthHandlerConfig) (request : Request) (response : Response) (x : S × W)
      (code state : Bytes)
      → eq_bytes request.method_token (codes "POST") ≡ false
      → request.uri.query ≡ build_form_body (redirect_fields code state)
      → All IsByte code
      → All IsByte state
      → let done =
          complete_login store library send fuel manager
            (record { code = code; state = state })
            x in
        ((callback realm_calls config request response x).0 ≡ done.0)
        × ((result : CallbackResult)
            → done.1 ≡ ok result
            → (callback realm_calls config request response x).1
              ≡ ok (callback_reply config result response))
  completed_by config request response x code state m q hc hs =
      let reply : CallbackResult → Response = λ result. callback_reply config result response in
      let done =
        complete_login store library send fuel manager (record { code = code; state = state }) x in
      let whole = callback-complete_login config request response x code state m q hc hs in
      (
        ap (λ r. r.0) whole ∙ replied-store reply done,
        λ result e. ap (λ r. r.1) whole ∙ replied-ok reply done result e,
      )

  abbrev invalid : CallbackResult
  invalid = callback_refused 401 (codes "invalid_or_expired_state")

  -- Over a store that keeps its states, a redirect back whose state the store has answered for, whatever
  -- came of it, makes a further redirect back with that state, whatever its code, be answered with status
  -- 401, the error in the body and no cookie, with nothing sent, as long as no other call of the store comes
  -- between. Neither is a POST, their queries were written from codes and a state of bytes, and none of
  -- these is empty.
  pub callback_twice :
      (config : AuthHandlerConfig) (IsKept : StateEntry → ℤ → Type 0)
      → KeepsStates store IsKept
      → (request again : Request) (response response' : Response) (state code code' : Bytes) (s : S)
        (w w' : W) (found : Option StateEntry)
      → eq_bytes request.method_token (codes "POST") ≡ false
      → eq_bytes again.method_token (codes "POST") ≡ false
      → request.uri.query ≡ build_form_body (redirect_fields code state)
      → again.uri.query ≡ build_form_body (redirect_fields code' state)
      → All IsByte state
      → All IsByte code
      → All IsByte code'
      → state ≢ []
      → code ≢ []
      → code' ≢ []
      → (store.consume_state_entry state s).1 ≡ ok found
      → let s' = (callback realm_calls config request response (s, w)).0.0 in
        let second = callback realm_calls config again response' (s', w') in
        (second.0.1 ≡ w')
        × ((reply : Response) × (second.1 ≡ ok reply)
            × (reply.status_code ≡ 401)
            × (reply.body ≡ error_body (codes "invalid_or_expired_state"))
            × (reply.headers
                ≡ ((response'.headers ++ (codes "Cache-Control", codes "no-store") ∷ [])
                    ++ (codes "Pragma", codes "no-cache") ∷ [])
                  ++ (codes "Content-Type", codes "application/json") ∷ []))
  callback_twice config IsKept kept request again response response' state code code' s w w' found m
        m' q q' bs bc bc' ns nc nc' h =
      let s₁ : S =
        (complete_login store library send fuel manager (record { code = code; state = state })
          (s, w)).0.0 in
      let left : (callback realm_calls config request response (s, w)).0.0 ≡ s₁ =
        ap (λ x. x.0) (completed_by config request response (s, w) code state m q bc bs).0 in
      let (refused, silent) =
        complete_login_twice store library send fuel manager IsKept kept state code code' s w w'
          found ns nc nc' h in
      let (network, reply) =
        completed_by config again response' (s₁, w') code' state m' q' bc' bs in
      rw left (
        ap (λ x. x.1) network ∙ silent,
        (
          callback_reply config invalid response',
          reply invalid refused,
          refused_status config invalid response' refl,
          refused_body config invalid response' refl,
          refused_headers config invalid response' refl,
        ),
      )
