-- ===== src/StateStore/Redis/Laws.antt =====
-- RedisStateStore over a server that keeps its documented promises.
use uidentity.Base.{
  ℕ, zero, suc, ◌+◌, true, [], Option, none, some, Bytes, codes, eq_bytes, eq_bytes_iff, Result, ok,
  err, ◌≡◌, ◌≢◌, ◌∙◌, ap, arith, All, IsByte,
}
use uidentity.Base.Int.{ℤ}
use uidentity.StateStore.Entry.{StateEntry}
use uidentity.StateStore.Redis.Codec.{encode_state_entry, decode-encode_state_entry}
use uidentity.StateStore.Redis.Store.{
  null, simple_string, bulk_string, Client, make_key, set_command, getdel_command, ttl_text,
  allocate, create_state_entry, consume_state_entry, entry_of_reply, read_reply,
}

-- What the code relies on, by the documentation of SET with NX and of GETDEL, while no key expires:
-- `stored s key` is the string at a key.
pub record KeepsPromises {S : Type 0} (command : Client S) (stored : S → Bytes → Option Bytes)
    : Type 0 where
  pub set_stores :
      (s : S) (key value ttl : Bytes)
      → (command (set_command key value ttl) s).1 ≡ simple_string (codes "OK")
      → (stored s key ≡ none) × (stored (command (set_command key value ttl) s).0 key ≡ some value)
  pub getdel_returns :
      (s : S) (key value : Bytes)
      → stored s key ≡ some value
      → (command (getdel_command key) s).1 ≡ bulk_string value
  pub getdel_removes : (s : S) (key : Bytes) → stored (command (getdel_command key) s).0 key ≡ none
  pub getdel_missing :
      (s : S) (key : Bytes) → stored s key ≡ none → (command (getdel_command key) s).1 ≡ null

module _ {S : Type 0} (command : Client S) (stored : S → Bytes → Option Bytes)
    (server : KeepsPromises command stored) (key_prefix : Bytes) where
  -- A success stored the value under the state that it returns, where nothing was before.
  abbrev Stores : Bytes → S × Result Bytes → Type 0
  Stores value (after, err e) = Unit {0}
  Stores value (after, ok state) = stored after (make_key key_prefix state) ≡ some value

  set_ok :
      (s : S) (key value ttl text : Bytes)
      → (command (set_command key value ttl) s).1 ≡ simple_string text
      → eq_bytes text (codes "OK") ≡ true
      → stored (command (set_command key value ttl) s).0 key ≡ some value
  set_ok s key value ttl text e h =
      (server.set_stores s key value ttl
        (e ∙ ap simple_string ((eq_bytes_iff text (codes "OK")).0 h))).1

  allocate-Stores :
      (n i : ℕ) (draw : ℕ → Option Bytes) (value ttl : Bytes) (s : S)
      → Stores value (allocate command key_prefix n i draw value ttl s)
  unfolding allocate
  allocate-Stores zero i draw value ttl s = tt
  allocate-Stores (suc n) i draw value ttl s =
      grind (arith, set_ok, allocate-Stores n (i + 1) draw value ttl)

  consume-stored :
      (s : S) (state raw : Bytes)
      → stored s (make_key key_prefix state) ≡ some raw
      → (consume_state_entry command key_prefix state s).1 ≡ ok (some (entry_of_reply raw))
  unfolding consume_state_entry read_reply
  consume-stored s state raw h =
      ground (arith, server.getdel_returns s (make_key key_prefix state) raw h)

  consume-missing :
      (s : S) (state : Bytes)
      → stored s (make_key key_prefix state) ≡ none
      → (consume_state_entry command key_prefix state s).1 ≡ ok none
  unfolding consume_state_entry read_reply
  consume-missing s state h = ground (arith, server.getdel_missing s (make_key key_prefix state) h)

  Stores-ok :
      (value state : Bytes) (r : S × Result Bytes)
      → Stores value r
      → r.1 ≡ ok state
      → stored r.0 (make_key key_prefix state) ≡ some value
  Stores-ok value state (after, err e) h q = cc
  Stores-ok value state (after, ok given) h q = let same : given ≡ state = cc in rw (← same) h

  consume-removes :
      (s : S) (state : Bytes)
      → stored (consume_state_entry command key_prefix state s).0 (make_key key_prefix state) ≡ none
  unfolding consume_state_entry
  consume-removes s state = server.getdel_removes s (make_key key_prefix state)

  pub consume-consume :
      (s : S) (state : Bytes)
      → (consume_state_entry command key_prefix state
          (consume_state_entry command key_prefix state s).0).1
        ≡ ok none
  consume-consume s state = consume-missing _ state (consume-removes s state)

  -- Over a server that keeps the promises, a state that a create returned gives the entry to the next
  -- consume of it, and nothing to the one after.
  pub consume-create :
      (draw : ℕ → Option Bytes) (entry : StateEntry) (ttl : ℤ) (s : S) (state : Bytes)
      → All IsByte entry.code_verifier
      → All IsByte entry.realm
      → entry.code_verifier ≢ []
      → (create_state_entry command key_prefix draw entry ttl s).1 ≡ ok state
      → let s₁ = (create_state_entry command key_prefix draw entry ttl s).0 in
        let s₂ = (consume_state_entry command key_prefix state s₁).0 in
        ((consume_state_entry command key_prefix state s₁).1 ≡ ok (some entry))
        × ((consume_state_entry command key_prefix state s₂).1 ≡ ok none)
  consume-create draw entry ttl s state hv hr ne e =
      let s₁ = (create_state_entry command key_prefix draw entry ttl s).0 in
      let placed : stored s₁ (make_key key_prefix state) ≡ some (encode_state_entry entry) =
        unfold create_state_entry in
        Stores-ok _ state _ (allocate-Stores 8 0 draw (encode_state_entry entry) (ttl_text ttl) s)
          (unfold create_state_entry in e) in
      (
        consume-stored s₁ state _ placed
            ∙ ap (λ x. ok (some x))
                (unfold entry_of_reply in ground (arith, decode-encode_state_entry entry hv hr ne)),
        consume-consume s₁ state,
      )
