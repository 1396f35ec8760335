-- ===== src/Client/Store.antt =====
-- StateStoreLike as an interface, with the KeycloakHandler of state_store.hpp, and the results of a
-- callback.
pub mod Redis
pub mod Memory
use uidentity.Base.{
  ℕ, Bool, true, false, List, [], Option, none, some, Bytes, codes, Result, ok, err, Error, ◌>>=◌,
  ◌≡◌,
}
use uidentity.Base.Int.{ℤ, pos}
use uidentity.StateStore.Entry.{StateEntry}
use uidentity.OAuth.Types.{TokenSet, OAuthResult, no_tokens}

-- The operations of a store, each a step on its state, the clock and the random bytes included.
pub record Store (S : Type 0) : Type 0 where
  pub create_state_entry : StateEntry → ℤ → S → S × Result Bytes
  pub consume_state_entry : Bytes → S → S × Result (Option StateEntry)
  pub create_state : Bytes → ℤ → S → S × Result Bytes
  pub consume_state : Bytes → S → S × Result (Option Bytes)
  pub random_state_32 : S → S × Result Bytes
  pub cleanup_expired_unsafe : S → S

-- KeycloakHandler passes each call on to the store that it was given.
unfoldable pub keycloak_handler : {S : Type 0} → Store S → Store S
keycloak_handler store = record {
  create_state_entry = λ entry ttl s. store.create_state_entry entry ttl s;
  consume_state_entry = λ state s. store.consume_state_entry state s;
  create_state = λ code_verifier ttl s. store.create_state code_verifier ttl s;
  consume_state = λ state s. store.consume_state state s;
  random_state_32 = λ s. store.random_state_32 s;
  cleanup_expired_unsafe = λ s. store.cleanup_expired_unsafe s;
}

-- What a client relies on: a state that was created for an entry of the kind that the store keeps is good
-- for the next consume of it, and a state that was consumed is not good for the one after.
pub record KeepsStates {S : Type 0} (store : Store S) (IsKept : StateEntry → ℤ → Type 0)
    : Type 0 where
  pub entry_kept :
      (entry : StateEntry) (ttl : ℤ) (s : S) (state : Bytes)
      → IsKept entry ttl
      → (store.create_state_entry entry ttl s).1 ≡ ok state
      → (store.consume_state_entry state (store.create_state_entry entry ttl s).0).1
        ≡ ok (some entry)
  pub verifier_kept :
      (code_verifier : Bytes) (ttl : ℤ) (s : S) (state : Bytes)
      → IsKept (record { code_verifier = code_verifier; realm = [] }) ttl
      → (store.create_state code_verifier ttl s).1 ≡ ok state
      → (store.consume_state state (store.create_state code_verifier ttl s).0).1
        ≡ ok (some code_verifier)
  pub used_once :
      (state : Bytes) (s : S) (found : Option StateEntry)
      → (store.consume_state_entry state s).1 ≡ ok found
      → (store.consume_state_entry state (store.consume_state_entry state s).0).1 ≡ ok none

pub record CallbackInput : Type 0 where
  pub code : Bytes
  pub state : Bytes

pub record CallbackResult : Type 0 where
  pub accepted : Bool
  pub http_status : ℕ
  pub error : Bytes
  pub tokens : TokenSet
  pub realm : Bytes

abbrev pub callback_refused : ℕ → Bytes → CallbackResult
callback_refused http_status error = record {
  accepted = false;
  http_status = http_status;
  error = error;
  tokens = no_tokens;
  realm = [];
}

-- The result of an exchange, for a realm.
unfoldable pub callback_of : Bytes → OAuthResult → CallbackResult
callback_of realm result = record {
  accepted = result.accepted;
  http_status = result.http_status;
  error = result.error;
  tokens = result.tokens;
  realm = realm;
}

-- `exchange_authorization_code` of a token service.
abbrev pub Exchange : Type 0 → Type 0
Exchange W = Bytes → Bytes → W → W × Result OAuthResult

-- The end of a callback: the exchange with the verifier that was found.
unfoldable pub exchanged :
    {W : Type 0} → Exchange W → Bytes → Bytes → Bytes → W → W × Result CallbackResult
exchanged exchange realm code code_verifier w =
    let (after, result) = exchange code code_verifier w in
    (after, result >>= λ r. ok (callback_of realm r))
