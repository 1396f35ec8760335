-- ===== src/Client/MultiRealm/Login.antt =====
-- A login of one realm from its start to its callback, over a store that keeps its states.
use uidentity.Base.{
  is_empty-ne, ℕ, [], some, Bytes, lookup, Result, ok, err, ◌≡◌, ◌≢◌, refl, ◌∙◌, sym, ap, arith,
}
use uidentity.Base.Int.{ℤ}
use uidentity.Pkce.{PkcePair, Library, generate_pkce_pair}
use uidentity.StateStore.Entry.{StateEntry}
use uidentity.OAuth.TokenService.{exchange_authorization_code}
use uidentity.Auth.PkceStrategy.{AuthStart, create_authorization_url}
use uidentity.Validator.Keys.{HttpClient}
use uidentity.Client.Store.{Store, KeepsStates, exchanged}
use uidentity.Client.Keycloak.{to_url}
use uidentity.Client.Keycloak.Laws.{to_url-ok}
use uidentity.Client.MultiRealm.{
  RealmRuntime, MultiRealmManager, lookup_realm, start_login, finish_login, complete_login,
}
use uidentity.Client.MultiRealm.Realms.{IsNamed}

pub lookup_realm-ok :
    (manager : MultiRealmManager) (realm : Bytes) (runtime : RealmRuntime)
    → lookup_realm manager realm ≡ ok runtime
    → lookup realm manager.realms_ ≡ some runtime
unfolding lookup_realm
lookup_realm-ok manager realm runtime h = ground arith

abbrev pub entry_of : RealmRuntime → PkcePair → StateEntry
entry_of runtime pkce = record {
  code_verifier = pkce.code_verifier;
  realm = runtime.realm_cfg.realm;
}

module _ {S W : Type 0} (store : Store S) (library : Library) (send : HttpClient W) (fuel : ℕ)
    (manager : MultiRealmManager) where
  started :
      (realm : Bytes) (runtime : RealmRuntime) (r : Result PkcePair) (ttl : ℤ) (s : S)
      (start : AuthStart)
      → lookup_realm manager realm ≡ ok runtime
      → generate_pkce_pair library runtime.realm_cfg.pkce_verifier_len ≡ r
      → (start_login store library send fuel manager realm ttl s).1 ≡ ok start
      → (pkce : PkcePair) × (r ≡ ok pkce)
        × (start_login store library send fuel manager realm ttl s
            ≡ to_url runtime.realm_cfg pkce
                (store.create_state_entry (entry_of runtime pkce) ttl s))
  unfolding start_login
  started realm runtime (err e) ttl s start l g h = ground arith
  started realm runtime (ok pkce) ttl s start l g h = (pkce, refl, ground arith)

  completed :
      (code state : Bytes) (entry : StateEntry) (runtime : RealmRuntime) (s : S) (w : W)
      → code ≢ []
      → state ≢ []
      → (store.consume_state_entry state s).1 ≡ ok (some entry)
      → lookup entry.realm manager.realms_ ≡ some runtime
      → let done =
          complete_login store library send fuel manager
            (record { code = code; state = state })
            (s, w) in
        let sent =
          exchanged
            (exchange_authorization_code send fuel runtime.token_cfg)
            runtime.realm_cfg.realm
            code
            entry.code_verifier
            w in
        (done.1 ≡ sent.1) × (done.0.1 ≡ sent.0)
  unfolding complete_login finish_login
  completed code state entry runtime s w hc hs e l = (
    ground (arith, is_empty-ne code hc, is_empty-ne state hs),
    ground (arith, is_empty-ne code hc, is_empty-ne state hs),
  )

  -- The pair behind a login that was started, and the entry that was put in the store for it.
  pub login_started :
      (realm : Bytes) (runtime : RealmRuntime) (ttl : ℤ) (s : S) (start : AuthStart)
      → lookup_realm manager realm ≡ ok runtime
      → (start_login store library send fuel manager realm ttl s).1 ≡ ok start
      → (pkce : PkcePair) × (generate_pkce_pair library runtime.realm_cfg.pkce_verifier_len
          ≡ ok pkce)
        × (start ≡ create_authorization_url runtime.realm_cfg start.state pkce)
        × ((store.create_state_entry (entry_of runtime pkce) ttl s).1 ≡ ok start.state)
        × ((start_login store library send fuel manager realm ttl s).0
            ≡ (store.create_state_entry (entry_of runtime pkce) ttl s).0)
  login_started realm runtime ttl s start l h =
      let (pkce, made, e) = started realm runtime _ ttl s start l refl h in
      let created = store.create_state_entry (entry_of runtime pkce) ttl s in
      let (state, url) =
        to_url-ok runtime.realm_cfg pkce created start (sym (ap (λ p. p.1) e) ∙ h) in
      (pkce, made, url, state, ap (λ p. p.0) e)

  -- A callback that finds the entry of a login of the realm.
  pub entry_redeemed :
      (realm code state : Bytes) (runtime : RealmRuntime) (pkce : PkcePair) (s : S) (w : W)
      → IsNamed manager
      → lookup_realm manager realm ≡ ok runtime
      → code ≢ []
      → state ≢ []
      → (store.consume_state_entry state s).1 ≡ ok (some (entry_of runtime pkce))
      → let done =
          complete_login store library send fuel manager
            (record { code = code; state = state })
            (s, w) in
        let sent =
          exchanged
            (exchange_authorization_code send fuel runtime.token_cfg)
            realm
            code
            pkce.code_verifier
            w in
        (done.1 ≡ sent.1) × (done.0.1 ≡ sent.0)
  entry_redeemed realm code state runtime pkce s w named l hc hs found =
      let there = lookup_realm-ok manager realm runtime l in
      let own = named realm runtime there in
      let (result, network) =
        completed code state (entry_of runtime pkce) runtime s w hc hs found
          (ap (λ n. lookup n manager.realms_) own ∙ there) in
      let exchange = exchange_authorization_code send fuel runtime.token_cfg in
      (
        result ∙ ap (λ n. (exchanged exchange n code pkce.code_verifier w).1) own,
        network ∙ ap (λ n. (exchanged exchange n code pkce.code_verifier w).0) own,
      )

module _ {S W : Type 0} (store : Store S) (IsKept : StateEntry → ℤ → Type 0)
    (kept : KeepsStates store IsKept) (library : Library) (send : HttpClient W) (fuel : ℕ)
    (manager : MultiRealmManager) where
  -- Over a store that keeps its states, for a manager whose runtimes stand under their own names: a
  -- callback with the state of a login that was started for a realm, before any other call of the store,
  -- exchanges its code with that realm's token service and with the verifier behind the challenge of that
  -- login's URL; its result is that of the exchange, under the realm's name. The code and the state are not
  -- empty, and the entry is of the kind that the store keeps.
  pub complete_login-start_login_of_realm :
      (realm : Bytes) (runtime : RealmRuntime) (ttl : ℤ) (s : S) (w : W) (start : AuthStart)
      (code : Bytes)
      → IsNamed manager
      → lookup_realm manager realm ≡ ok runtime
      → (start_login store library send fuel manager realm ttl s).1 ≡ ok start
      → code ≢ []
      → start.state ≢ []
      → ((pkce : PkcePair)
          → generate_pkce_pair library runtime.realm_cfg.pkce_verifier_len ≡ ok pkce
          → IsKept (entry_of runtime pkce) ttl)
      → let s' = (start_login store library send fuel manager realm ttl s).0 in
        let done =
          complete_login store library send fuel manager
            (record { code = code; state = start.state })
            (s', w) in
        (pkce : PkcePair) × (generate_pkce_pair library runtime.realm_cfg.pkce_verifier_len
          ≡ ok pkce)
        × (start ≡ create_authorization_url runtime.realm_cfg start.state pkce)
        × (done.1
            ≡ (exchanged
                (exchange_authorization_code send fuel runtime.token_cfg)
                realm
                code
                pkce.code_verifier
                w).1)
        × (done.0.1
            ≡ (exchanged
                (exchange_authorization_code send fuel runtime.token_cfg)
                realm
                code
                pkce.code_verifier
                w).0)
  complete_login-start_login_of_realm realm runtime ttl s w start code named l h hc hs good =
      let (pkce, made, url, state, left) =
        login_started store library send fuel manager realm runtime ttl s start l h in
      let found =
        kept.entry_kept (entry_of runtime pkce) ttl s start.state (good pkce made) state in
      let (result, network) =
        entry_redeemed store library send fuel manager realm code start.state runtime pkce _ w named
          l hc hs found in
      (pkce, made, url, rw left result, rw left network)
