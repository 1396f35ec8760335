-- ===== src/Client/Store/Redis.antt =====
-- RedisStateStore keeps its states, over a server that keeps its promises.
use uidentity.Base.{ℕ, [], Option, some, Bytes, ok, ◌≡◌, ◌≢◌, arith, All, IsByte}
use uidentity.Base.Int.{ℤ}
use uidentity.StateStore.Entry.{StateEntry}
use uidentity.StateStore.Random.{random_state_32}
use uidentity.StateStore.Redis.Store.{
  Client, create_state_entry, consume_state_entry, create_state, consume_state,
}
use uidentity.StateStore.Redis.Laws.{KeepsPromises, consume-create, consume-consume}
use uidentity.Client.Store.{Store, KeepsStates}

-- What the text of an entry can hold.
abbrev pub IsStorable : StateEntry → ℤ → Type 0
IsStorable entry ttl =
    All IsByte entry.code_verifier × All IsByte entry.realm × (entry.code_verifier ≢ [])

abbrev pub redis_store : {S : Type 0} → Client S → Bytes → (ℕ → Option Bytes) → Store S
redis_store command key_prefix draw = record {
  create_state_entry = create_state_entry command key_prefix draw;
  consume_state_entry = consume_state_entry command key_prefix;
  create_state = create_state command key_prefix draw;
  consume_state = consume_state command key_prefix;
  random_state_32 = λ s. (s, random_state_32 (draw 0));
  cleanup_expired_unsafe = λ s. s;
}

verifier_of :
    {S : Type 0} (command : Client S) (key_prefix state : Bytes) (s : S) (entry : StateEntry)
    → (consume_state_entry command key_prefix state s).1 ≡ ok (some entry)
    → (consume_state command key_prefix state s).1 ≡ ok (some entry.code_verifier)
unfolding consume_state
verifier_of command key_prefix state s entry h = ground arith

-- A store over a server that keeps its promises keeps every state of bytes with a verifier, for one
-- consume.
pub redis_store-KeepsStates :
    {S : Type 0} (command : Client S) (stored : S → Bytes → Option Bytes)
    (server : KeepsPromises command stored) (key_prefix : Bytes) (draw : ℕ → Option Bytes)
    → KeepsStates (redis_store command key_prefix draw) IsStorable
unfolding create_state
redis_store-KeepsStates command stored server key_prefix draw = record {
  entry_kept = λ entry ttl s state (hv, hr, ne) e.
      (consume-create command stored server key_prefix draw entry ttl s state hv hr ne e).0;
  verifier_kept = λ verifier ttl s state (hv, hr, ne) e.
      verifier_of command key_prefix state _ _
        (consume-create command stored server key_prefix draw _ ttl s state hv hr ne e).0;
  used_once = λ state s found e. consume-consume command stored server key_prefix s state;
}
