-- ===== src/Client/MultiRealm/Replay.antt =====
-- A callback that comes twice.
use uidentity.Base.{
  is_empty-ne, ℕ, [], Option, none, some, Bytes, codes, Result, ok, err, ◌≡◌, ◌≢◌, refl, ◌∙◌, ap,
  arith,
}
use uidentity.Base.Int.{ℤ}
use uidentity.Pkce.{Library}
use uidentity.StateStore.Entry.{StateEntry}
use uidentity.Validator.Keys.{HttpClient}
use uidentity.Client.Store.{Store, KeepsStates, CallbackInput, callback_refused}
use uidentity.Client.MultiRealm.{MultiRealmManager, finish_login, complete_login}

module _ {S W : Type 0} (store : Store S) (library : Library) (send : HttpClient W) (fuel : ℕ)
    (manager : MultiRealmManager) where
  pub finish_login-store :
      (code : Bytes) (w : W) (r : S × Result (Option StateEntry))
      → (finish_login store library send fuel manager code w r).0.0 ≡ r.0
  unfolding finish_login
  finish_login-store code w (s, err e) = refl
  finish_login-store code w (s, ok none) = refl
  finish_login-store code w (s, ok (some entry)) = ground arith

  pub complete_login-finish_login :
      (input : CallbackInput) (s : S) (w : W)
      → input.code ≢ []
      → input.state ≢ []
      → complete_login store library send fuel manager input (s, w)
        ≡ finish_login store library send fuel manager input.code w
            (store.consume_state_entry input.state s)
  unfolding complete_login
  complete_login-finish_login input s w hc hs =
      ground (arith, is_empty-ne input.code hc, is_empty-ne input.state hs)

  finish_login-none :
      (code : Bytes) (w : W) (r : S × Result (Option StateEntry))
      → r.1 ≡ ok none
      → finish_login store library send fuel manager code w r
        ≡ ((r.0, w), ok (callback_refused 401 (codes "invalid_or_expired_state")))
  unfolding finish_login
  finish_login-none code w (s, err e) h = cc
  finish_login-none code w (s, ok none) h = refl
  finish_login-none code w (s, ok (some entry)) h = cc

  -- Over a store that keeps its states, a callback whose state the store has answered for, whatever came of
  -- the callback, makes every further callback with that state, whatever its code, be refused as one of an
  -- invalid or expired state, with nothing sent, as long as no other call of the store comes between. No
  -- code and no state is empty.
  pub complete_login_twice :
      (IsKept : StateEntry → ℤ → Type 0)
      → KeepsStates store IsKept
      → (state code code' : Bytes) (s : S) (w w' : W) (found : Option StateEntry) → state ≢ []
      → code ≢ []
      → code' ≢ []
      → (store.consume_state_entry state s).1 ≡ ok found
      → let s' =
          (complete_login store library send fuel manager
            (record { code = code; state = state })
            (s, w)).0.0 in
        let again =
          complete_login store library send fuel manager
            (record { code = code'; state = state })
            (s', w') in
        (again.1 ≡ ok (callback_refused 401 (codes "invalid_or_expired_state"))) × (again.0.1 ≡ w')
  complete_login_twice IsKept kept state code code' s w w' found ns nc nc' h =
      let first : (complete_login store library send fuel manager
            (record { code = code; state = state }) (s, w)).0.0
          ≡ (store.consume_state_entry state s).0 =
        ap (λ r. r.0.0)
          (complete_login-finish_login (record { code = code; state = state }) s w nc ns)
        ∙ finish_login-store code w _ in
      let again =
        complete_login-finish_login (record { code = code'; state = state })
          (store.consume_state_entry state s).0 w' nc' ns
        ∙ finish_login-none code' w' _ (kept.used_once state s found h) in
      rw first (ap (λ r. r.1) again, ap (λ r. r.0.1) again)
