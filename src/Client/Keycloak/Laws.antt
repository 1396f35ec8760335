-- ===== src/Client/Keycloak/Laws.antt =====
-- A login from its start to its callback, over a store that keeps its states.
use uidentity.Base.{
  is_empty-ne, [], some, Bytes, Result, ok, err, ◌≡◌, ◌≢◌, refl, ◌∙◌, sym, ap, arith,
}
use uidentity.Base.Int.{ℤ}
use uidentity.Pkce.{PkcePair, Library, generate_pkce_pair}
use uidentity.Auth.PkceStrategy.{KeycloakRealmConfig, AuthStart, create_authorization_url}
use uidentity.StateStore.Entry.{StateEntry}
use uidentity.Client.Store.{Store, KeepsStates, Exchange, exchanged}
use uidentity.Client.Keycloak.{to_url, start_login, finish_login, complete_login}

-- A start that succeeds got a state, which is that of the URL.
pub to_url-ok :
    {S : Type 0} (cfg : KeycloakRealmConfig) (pkce : PkcePair) (made : S × Result Bytes)
    (start : AuthStart)
    → (to_url cfg pkce made).1 ≡ ok start
    → (made.1 ≡ ok start.state) × (start ≡ create_authorization_url cfg start.state pkce)
unfolding create_authorization_url
to_url-ok cfg pkce (s, err e) start h = cc
to_url-ok cfg pkce (s, ok state) start h =
    let same : create_authorization_url cfg state pkce ≡ start = cc in rw (sym same) (refl, refl)

module _ {S W : Type 0} (store : Store S) (IsKept : StateEntry → ℤ → Type 0)
    (kept : KeepsStates store IsKept) (library : Library) (exchange : Exchange W)
    (cfg : KeycloakRealmConfig) where
  started :
      (r : Result PkcePair) (ttl : ℤ) (s : S) (start : AuthStart)
      → generate_pkce_pair library cfg.pkce_verifier_len ≡ r
      → (start_login store library exchange cfg ttl s).1 ≡ ok start
      → (pkce : PkcePair) × (r ≡ ok pkce)
        × (start_login store library exchange cfg ttl s
            ≡ to_url cfg pkce (store.create_state pkce.code_verifier ttl s))
  unfolding start_login
  started (err e) ttl s start g h = ground arith
  started (ok pkce) ttl s start g h = (pkce, refl, ground arith)

  completed :
      (code state verifier : Bytes) (s : S) (w : W)
      → code ≢ []
      → state ≢ []
      → (store.consume_state state s).1 ≡ ok (some verifier)
      → let done =
          complete_login store library exchange cfg
            (record { code = code; state = state })
            (s, w) in
        (done.1 ≡ (exchanged exchange cfg.realm code verifier w).1)
        × (done.0.1 ≡ (exchanged exchange cfg.realm code verifier w).0)
  unfolding complete_login finish_login
  completed code state verifier s w hc hs e = (
    ground (arith, is_empty-ne code hc, is_empty-ne state hs),
    ground (arith, is_empty-ne code hc, is_empty-ne state hs),
  )

  -- Over a store that keeps its states: a callback with the state of a login that was started, before any
  -- other call of the store, exchanges its code with the verifier behind the challenge of that login's
  -- URL, and its result is that of the exchange. The code and the
  -- state are not empty, and the verifier is of the kind that the store keeps.
  pub complete_login-start_login :
      (ttl : ℤ) (s : S) (w : W) (start : AuthStart) (code : Bytes)
      → (start_login store library exchange cfg ttl s).1 ≡ ok start
      → code ≢ []
      → start.state ≢ []
      → ((pkce : PkcePair)
          → generate_pkce_pair library cfg.pkce_verifier_len ≡ ok pkce
          → IsKept (record { code_verifier = pkce.code_verifier; realm = [] }) ttl)
      → let s' = (start_login store library exchange cfg ttl s).0 in
        let done =
          complete_login store library exchange cfg
            (record { code = code; state = start.state })
            (s', w) in
        (pkce : PkcePair) × (generate_pkce_pair library cfg.pkce_verifier_len ≡ ok pkce)
        × (start ≡ create_authorization_url cfg start.state pkce)
        × (done.1 ≡ (exchanged exchange cfg.realm code pkce.code_verifier w).1)
        × (done.0.1 ≡ (exchanged exchange cfg.realm code pkce.code_verifier w).0)
  complete_login-start_login ttl s w start code h hc hs good =
      let (pkce, made, e) = started _ ttl s start refl h in
      let created = store.create_state pkce.code_verifier ttl s in
      let left : (start_login store library exchange cfg ttl s).0 ≡ created.0 = ap (λ p. p.0) e in
      let (state, url) = to_url-ok cfg pkce created start (sym (ap (λ p. p.1) e) ∙ h) in
      let found = kept.verifier_kept pkce.code_verifier ttl s start.state (good pkce made) state in
      let (result, network) =
        completed code start.state pkce.code_verifier created.0 w hc hs found in
      (pkce, made, url, rw left result, rw left network)
