-- ===== src/Client/Store/Memory.antt =====
-- MemoryStateStore keeps its states, in a process whose clock does not go back and does not stand still
-- for long between two readings.
use uidentity.Base.{
  ℕ, suc, true, [], Option, none, some, Bytes, eq_bytes_refl, Result, ok, err, ◌≡◌, refl, ◌∙◌, ap,
  arith,
}
use uidentity.Base.Int.{ℤ, ◌+ℤ◌, ◌≤ℤ◌, ltb_ℤ, +ℤ_parts}
use uidentity.StateStore.Entry.{StateEntry}
use uidentity.StateStore.Random.{random_state_32}
use uidentity.StateStore.Memory.{
  MemoryStateStore, cleanup_expired_unsafe, create_state_entry, consume_state_entry, create_state,
  consume_state,
}
use uidentity.StateStore.Memory.Laws.{
  IsValid, Creates, live, cleanup-IsValid, create_state_entry_lem, create-IsValid,
  consume_state_entry_lem, consume-IsValid,
}
use uidentity.Client.Store.{Store, KeepsStates}

-- The store of a process, and how often its clock was read and a state was asked for.
pub record Process : Type 0 where
  pub store : MemoryStateStore
  pub valid : IsValid store
  pub readings : ℕ
  pub creates : ℕ

-- The successive readings of a clock that does not go back; less than `gap` passes between two.
pub record IsSteady (clock : ℕ → ℤ) (gap : ℤ) : Type 0 where
  pub forward : (n : ℕ) → clock n ≤ℤ clock (suc n)
  pub close : (n : ℕ) → ltb_ℤ (clock (suc n)) (clock n +ℤ gap) ≡ true

abbrev pub Outlives : ℤ → StateEntry → ℤ → Type 0
Outlives gap entry ttl = gap ≤ℤ ttl

pub created_state-IsValid :
    (draw : ℕ → Option Bytes) (now later : ℤ) (code_verifier : Bytes) (ttl : ℤ)
    (store : MemoryStateStore)
    → IsValid store
    → IsValid (create_state draw now later code_verifier ttl store).0
unfolding create_state
created_state-IsValid draw now later code_verifier ttl store v =
    create-IsValid draw now later _ ttl store v

pub consumed_state-IsValid :
    (now : ℤ) (state : Bytes) (store : MemoryStateStore)
    → IsValid store
    → IsValid (consume_state now state store).0
unfolding consume_state
consumed_state-IsValid now state store v = consume-IsValid now state store v

-- A process behind a call: its clock's and its random bytes' next numbers.
abbrev behind : ℕ → ℕ → (store : MemoryStateStore) → IsValid store → Process
behind readings creates store valid = record {
  store = store;
  valid = valid;
  readings = readings;
  creates = creates;
}

-- A create takes its random bytes from `draw` at its number, and reads the clock twice.
module _ (clock : ℕ → ℤ) (draw : ℕ → ℕ → Option Bytes) where
  abbrev now : Process → ℤ
  now p = clock p.readings

  abbrev stamp : Process → ℤ
  stamp p = clock (suc p.readings)

  abbrev pub memory_store : Store Process
  memory_store = record {
    create_state_entry = λ entry ttl p.
        let r = create_state_entry (draw p.creates) (now p) (stamp p) entry ttl p.store in
        (
          behind (suc (suc p.readings)) (suc p.creates) r.0
              (create-IsValid (draw p.creates) (now p) (stamp p) entry ttl p.store p.valid),
          r.1,
        );
    consume_state_entry = λ state p.
        let r = consume_state_entry (now p) state p.store in
        (
          behind (suc p.readings) p.creates r.0 (consume-IsValid (now p) state p.store p.valid),
          ok r.1,
        );
    create_state = λ code_verifier ttl p.
        let r = create_state (draw p.creates) (now p) (stamp p) code_verifier ttl p.store in
        (
          behind (suc (suc p.readings)) (suc p.creates) r.0 (
              created_state-IsValid (draw p.creates) (now p) (stamp p) code_verifier ttl p.store
                p.valid),
          r.1,
        );
    consume_state = λ state p.
        let r = consume_state (now p) state p.store in
        (
          behind (suc p.readings) p.creates r.0
              (consumed_state-IsValid (now p) state p.store p.valid),
          ok r.1,
        );
    random_state_32 = λ p. (p, random_state_32 (draw p.creates 0));
    cleanup_expired_unsafe = λ p.
        behind (suc p.readings) p.creates (cleanup_expired_unsafe (now p) p.store)
          (cleanup-IsValid (now p) p.store p.valid);
  }

Creates-live :
    (entry : StateEntry) (now later ttl t : ℤ) (store : MemoryStateStore) (state : Bytes)
    (r : MemoryStateStore × Result Bytes)
    → Creates entry now later ttl store r
    → r.1 ≡ ok state
    → now ≤ℤ t
    → ltb_ℤ t (later +ℤ ttl) ≡ true
    → live t state r.0 ≡ some entry
Creates-live entry now later ttl t store state (after, err e) c h le lt = cc
Creates-live entry now later ttl t store state (after, ok given) (fresh, c) h le lt =
    let same : given ≡ state = cc in c t state le ∙ rw (same, eq_bytes_refl state, lt)

module _ (clock : ℕ → ℤ) (gap : ℤ) (steady : IsSteady clock gap) where
  in_time :
      (n : ℕ) (ttl : ℤ) → gap ≤ℤ ttl → ltb_ℤ (clock (suc (suc n))) (clock (suc n) +ℤ ttl) ≡ true
  in_time n ttl h =
      let c = steady.close (suc n) in
      let p = +ℤ_parts (clock (suc n)) gap in let q = +ℤ_parts (clock (suc n)) ttl in ground arith

  found_again :
      (draw : ℕ → Option Bytes) (entry : StateEntry) (ttl : ℤ) (n : ℕ) (store : MemoryStateStore)
      (state : Bytes)
      → IsValid store
      → gap ≤ℤ ttl
      → (create_state_entry draw (clock n) (clock (suc n)) entry ttl store).1 ≡ ok state
      → (consume_state_entry
          (clock (suc (suc n)))
          state
          (create_state_entry draw (clock n) (clock (suc n)) entry ttl store).0).1
        ≡ some entry
  found_again draw entry ttl n store state v h e =
      let t = clock (suc (suc n)) in
      let f₁ = steady.forward n in
      let f₂ = steady.forward (suc n) in
      (consume_state_entry_lem t t state state _
        (create-IsValid draw (clock n) (clock (suc n)) entry ttl store v) (omega arith)).0
      ∙ Creates-live entry (clock n) (clock (suc n)) ttl t store state _
          (create_state_entry_lem draw (clock n) (clock (suc n)) entry ttl store v) e (omega arith)
          (in_time n ttl h)

  found_again_verifier :
      (draw : ℕ → Option Bytes) (code_verifier : Bytes) (ttl : ℤ) (n : ℕ) (store : MemoryStateStore)
      (state : Bytes)
      → IsValid store
      → gap ≤ℤ ttl
      → (create_state draw (clock n) (clock (suc n)) code_verifier ttl store).1 ≡ ok state
      → (consume_state
          (clock (suc (suc n)))
          state
          (create_state draw (clock n) (clock (suc n)) code_verifier ttl store).0).1
        ≡ some code_verifier
  unfolding create_state consume_state
  found_again_verifier draw code_verifier ttl n store state v h e = ground (
    arith,
    found_again draw (record { code_verifier = code_verifier; realm = [] }) ttl n store state v h e,
  )

  gone :
      (n : ℕ) (state : Bytes) (store : MemoryStateStore)
      → IsValid store
      → (consume_state_entry (clock (suc n)) state (consume_state_entry (clock n) state store).0).1
        ≡ none
  gone n state store v =
      let f = steady.forward n in
      (consume_state_entry_lem (clock (suc n)) (clock (suc n)) state state _
        (consume-IsValid (clock n) state store v) (omega arith)).0
      ∙ (consume_state_entry_lem (clock n) (clock (suc n)) state state store v f).1
      ∙ rw (eq_bytes_refl state) refl

  -- The in-memory store keeps every state whose lifetime is no shorter than the longest time between two
  -- readings of the clock, for one consume.
  pub memory_store-KeepsStates :
      (draw : ℕ → ℕ → Option Bytes) → KeepsStates (memory_store clock draw) (Outlives gap)
  memory_store-KeepsStates draw = record {
    entry_kept = λ entry ttl p state h e.
        ap ok (found_again (draw p.creates) entry ttl p.readings p.store state p.valid h e);
    verifier_kept = λ code_verifier ttl p state h e. ap ok (
        found_again_verifier (draw p.creates) code_verifier ttl p.readings p.store state p.valid h
          e);
    used_once = λ state p found e. ap ok (gone p.readings state p.store p.valid);
  }
