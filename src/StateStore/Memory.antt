-- ===== src/StateStore/Memory.antt =====
-- MemoryStateStore of memory.hpp and memory.cpp. The mutex makes each call one step. A reading of the
-- steady clock and the draws of RAND_bytes are arguments of the call.
pub mod Laws
pub mod History
pub mod Kept
use uidentity.Base.{
  ℕ, zero, suc, ◌+◌, Bool, true, false, not, List, [], ◌∷◌, Option, none, some, Bytes, codes, Dict,
  lookup, insert_or_assign, erase, erase_if, if◌then◌else◌, has_value, Result, ok, err, Error,
}
use uidentity.Base.Int.{ℤ, ◌+ℤ◌, ltb_ℤ}
use uidentity.StateStore.Entry.{StateEntry}
use uidentity.StateStore.Random.{random_state_32}

pub record Entry : Type 0 where
  pub verifier : Bytes
  pub realm : Bytes
  pub expires_at : ℤ

pub record MemoryStateStore : Type 0 where
  pub map_ : Dict Entry

abbrev pub is_expired : ℤ → Entry → Bool
is_expired now e = not (ltb_ℤ now e.expires_at)

unfoldable pub cleanup_expired_unsafe : ℤ → MemoryStateStore → MemoryStateStore
cleanup_expired_unsafe now store = record { map_ = erase_if (is_expired now) store.map_ }

-- The loop over the attempts: the attempts left, the number of the next draw, the clock behind
-- `expires_at`.
unfoldable pub allocate :
    ℕ
    → ℕ
    → (ℕ → Option Bytes)
    → ℤ
    → StateEntry
    → ℤ
    → MemoryStateStore
    → MemoryStateStore × Result Bytes
allocate zero i draw now entry ttl store = (
  store,
  err (
      Error.runtime_error
        (codes "MemoryStateStore::create_state failed: unable to allocate unique state")),
)
allocate (suc n) i draw now entry ttl store = elim (random_state_32 (draw i)) [
  | err e ↦ (store, err e)
  | ok state ↦ elim (has_value (lookup state store.map_)) [
    | true ↦ allocate n (i + 1) draw now entry ttl store
    | false ↦ (
      record {
        map_ =
            insert_or_assign state
              (record {
                verifier = entry.code_verifier;
                realm = entry.realm;
                expires_at = now +ℤ ttl;
              })
              store.map_;
      },
      ok state,
    )
  ]
]

-- `now` is read by the cleanup and `later` behind the draw.
unfoldable pub create_state_entry :
    (ℕ → Option Bytes) → ℤ → ℤ → StateEntry → ℤ → MemoryStateStore → MemoryStateStore × Result Bytes
create_state_entry draw now later entry ttl store =
    allocate 8 0 draw later entry ttl (cleanup_expired_unsafe now store)

unfoldable pub create_state :
    (ℕ → Option Bytes) → ℤ → ℤ → Bytes → ℤ → MemoryStateStore → MemoryStateStore × Result Bytes
create_state draw now later code_verifier ttl store =
    create_state_entry draw now later (record { code_verifier = code_verifier; realm = [] }) ttl
      store

unfoldable pub consume_state_entry :
    ℤ → Bytes → MemoryStateStore → MemoryStateStore × Option StateEntry
consume_state_entry now state store =
    let clean = cleanup_expired_unsafe now store in
    elim (lookup state clean.map_) [
      | none ↦ (clean, none)
      | some e ↦ (
        record { map_ = erase state clean.map_ },
        some (record { code_verifier = e.verifier; realm = e.realm }),
      )
    ]

unfoldable pub consume_state : ℤ → Bytes → MemoryStateStore → MemoryStateStore × Option Bytes
consume_state now state store =
    let (rest, entry) = consume_state_entry now state store in
    (rest, (elim entry [ none ↦ none | some e ↦ some e.code_verifier ]))
