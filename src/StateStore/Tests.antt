-- ===== src/StateStore/Tests.antt =====
-- Runs of the stores, and the theorems about them at concrete inputs.
use uidentity.Base.{
  ℕ, [], ◌∷◌, Option, none, some, Bytes, codes, lookup, erase_if, eq_bytes, if◌then◌else◌, ok, ◌≡◌,
  refl, arith,
}
use uidentity.Base.Int.{pos, ◌+ℤ◌}
use uidentity.StateStore.Entry.{StateEntry}
use uidentity.StateStore.Random.{random_state_32, hex_pairs}
use uidentity.StateStore.Memory.{
  MemoryStateStore, consume_state_entry, create_state_entry, allocate, cleanup_expired_unsafe,
}
use uidentity.StateStore.Memory.Laws.{
  live, IsValid, Creates, consume_state_entry_lem, create_state_entry_lem,
}
use uidentity.StateStore.Memory.History.{here, consumed_once}
use uidentity.StateStore.Memory.Kept.{start, created, consumed, consume-create_between}

abbrev sixteen : Bytes
sixteen = 0 ∷ 1 ∷ 2 ∷ 3 ∷ 4 ∷ 5 ∷ 6 ∷ 7 ∷ 8 ∷ 9 ∷ 10 ∷ 11 ∷ 12 ∷ 13 ∷ 14 ∷ 255 ∷ []

abbrev first_state : Bytes
first_state = codes "000102030405060708090a0b0c0d0eff"

abbrev some_entry : StateEntry
some_entry = record { code_verifier = codes "v&1"; realm = codes "main" }

abbrev one_entry : MemoryStateStore
one_entry = record {
  map_ = (codes "s", record { verifier = codes "v"; realm = codes "r"; expires_at = pos 9 }) ∷ [];
}

one_entry-IsValid : IsValid one_entry
unfolding lookup
one_entry-IsValid = (refl, tt)

drawn : random_state_32 (some sixteen) ≡ ok first_state
unfolding random_state_32 hex_pairs
drawn = refl

consume_state_entry_example :
    ((consume_state_entry (pos 5) (codes "s") one_entry).1 ≡ live (pos 5) (codes "s") one_entry)
    × (live (pos 6) (codes "s") (consume_state_entry (pos 5) (codes "s") one_entry).0
        ≡ (if eq_bytes (codes "s") (codes "s") then none else live (pos 6) (codes "s") one_entry))
consume_state_entry_example =
    consume_state_entry_lem (pos 5) (pos 6) (codes "s") (codes "s") one_entry one_entry-IsValid
      (omega arith)

create_state_entry_example :
    Creates some_entry
      (pos 5)
      (pos 6)
      (pos 300)
      one_entry
      (create_state_entry (λ i. some sixteen) (pos 5) (pos 6) some_entry (pos 300) one_entry)
create_state_entry_example =
    create_state_entry_lem (λ i. some sixteen) (pos 5) (pos 6) some_entry (pos 300) one_entry
      one_entry-IsValid

consumed_once_example :
    (consume_state_entry
      (pos 7)
      (codes "s")
      (consume_state_entry (pos 5) (codes "s") one_entry).0).1
    ≡ none
consumed_once_example =
    consumed_once (codes "s") (pos 5) (pos 5) (pos 7) one_entry
      (consume_state_entry (pos 5) (codes "s") one_entry).0 one_entry-IsValid here (omega arith)

abbrev draws : ℕ → Option Bytes
draws i = some sixteen

abbrev after_create : MemoryStateStore
after_create = (create_state_entry draws (pos 5) (pos 6) some_entry (pos 300) one_entry).0

first_returned :
    (create_state_entry draws (pos 5) (pos 6) some_entry (pos 300) one_entry).1 ≡ ok first_state
unfolding create_state_entry allocate random_state_32 hex_pairs cleanup_expired_unsafe lookup
    erase_if eq_bytes
first_returned = refl

-- A consume of another state, and a create that draws the same bytes.
abbrev after_consume : MemoryStateStore
after_consume = (consume_state_entry (pos 7) (codes "s") after_create).0

abbrev after_others : MemoryStateStore
after_others = (create_state_entry draws (pos 8) (pos 8) some_entry (pos 300) after_consume).0

consume-create_between_example :
    (consume_state_entry (pos 305) first_state after_others).1 ≡ some some_entry
unfolding ◌+ℤ◌
consume-create_between_example =
    consume-create_between draws (pos 5) (pos 6) (pos 300) (pos 8) (pos 305) some_entry first_state
      one_entry after_others one_entry-IsValid first_returned
      (created draws (pos 8) (pos 8) some_entry (pos 300)
        (consumed (pos 7) (codes "s") start (omega arith) (ground arith) refl) (omega arith) refl)
      (omega arith) refl
