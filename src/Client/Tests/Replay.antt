-- ===== src/Client/Tests/Replay.antt =====
-- A callback that comes twice, over the in-memory store.
use uidentity.Base.{ℕ, [], ◌∷◌, some, codes, lookup, eq_bytes, erase_if, ok, ◌≡◌, refl, arith}
use uidentity.Base.Int.{ℤ, pos}
use uidentity.StateStore.Entry.{StateEntry}
use uidentity.StateStore.Memory.{consume_state_entry, cleanup_expired_unsafe}
use uidentity.Client.Store.{Store, KeepsStates}
use uidentity.Client.Store.Memory.{
  Process, IsSteady, Outlives, memory_store, memory_store-KeepsStates,
}
use uidentity.Base.Int.{+ℤ_parts}
use uidentity.StateStore.Memory.Laws.{IsValid}
use uidentity.Client.Tests.{sixteen}

-- A clock that counts its readings.
abbrev pub counted_clock : ℕ → ℤ
counted_clock n = pos n

pub counted_clock-IsSteady : IsSteady counted_clock (pos 2)
counted_clock-IsSteady = record {
  forward = λ n. omega arith;
  close = λ n. ground (arith, +ℤ_parts (pos n) (pos 2));
}

abbrev pub in_memory : Store Process
in_memory = memory_store counted_clock (λ n i. some sixteen)

memory_store-KeepsStates_example :
    KeepsStates (memory_store counted_clock (λ n i. some sixteen)) (Outlives (pos 2))
memory_store-KeepsStates_example =
    memory_store-KeepsStates counted_clock (pos 2) counted_clock-IsSteady (λ n i. some sixteen)

pub one_state-IsValid : IsValid (record {
  map_ =
      (codes "s", record { verifier = codes "v"; realm = codes "main"; expires_at = pos 300 }) ∷ [];
})
unfolding lookup
one_state-IsValid = (refl, tt)

-- One state, of a realm that the manager has.
abbrev pub one_state : Process
one_state = record {
  store = record {
    map_ =
        (codes "s", record { verifier = codes "v"; realm = codes "main"; expires_at = pos 300 })
        ∷ [];
  };
  valid = one_state-IsValid;
  readings = 7;
  creates = 0;
}

abbrev pub main_entry : StateEntry
main_entry = record { code_verifier = codes "v"; realm = codes "main" }

pub one_state_there : (in_memory.consume_state_entry (codes "s") one_state).1 ≡ ok (some main_entry)
unfolding consume_state_entry cleanup_expired_unsafe lookup erase_if eq_bytes
one_state_there = refl
