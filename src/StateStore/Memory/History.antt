-- ===== src/StateStore/Memory/History.antt =====
-- Histories of MemoryStateStore calls under a clock that does not go back.
use uidentity.Base.{
  ℕ, Option, none, Bytes, eq_bytes, eq_bytes_iff, eq_bytes_refl, Result, ok, err, ◌≡◌, ◌≢◌, ◌∙◌, ap,
  arith, Bool-cases, inl, inr,
}
use uidentity.Base.Int.{ℤ, ◌≤ℤ◌}
use uidentity.StateStore.Entry.{StateEntry}
use uidentity.StateStore.Memory.{MemoryStateStore, create_state_entry, consume_state_entry}
use uidentity.StateStore.Memory.Laws.{
  live, IsValid, Creates, consume_state_entry_lem, consume-IsValid, create_state_entry_lem,
  create-IsValid,
}

-- `Later k s u t w`: calls lead from the store `u` at time `s` to `w` at time `t`, in any order, and
-- no create among them returns the state `k`.
pub data Later (k : Bytes) (s : ℤ) (u : MemoryStateStore) : ℤ → MemoryStateStore → Type 0 where
  here : Later k s u s u
  created :
      {t : ℤ} {w w' : MemoryStateStore} (draw : ℕ → Option Bytes) (now later : ℤ)
      (entry : StateEntry) (ttl : ℤ)
      → Later k s u t w
      → t ≤ℤ now
      → (create_state_entry draw now later entry ttl w).1 ≢ ok k
      → w' ≡ (create_state_entry draw now later entry ttl w).0
      → Later k s u now w'
  consumed :
      {t : ℤ} {w w' : MemoryStateStore} (now : ℤ) (j : Bytes)
      → Later k s u t w
      → t ≤ℤ now
      → w' ≡ (consume_state_entry now j w).0
      → Later k s u now w'

abbrev Gone : Bytes → ℤ → MemoryStateStore → Type 0
Gone k s w = (t : ℤ) → s ≤ℤ t → live t k w ≡ none

Creates-Gone :
    (k : Bytes) (entry : StateEntry) (s now later ttl : ℤ) (w : MemoryStateStore)
    (r : MemoryStateStore × Result Bytes)
    → Creates entry now later ttl w r
    → Gone k s w
    → s ≤ℤ now
    → r.1 ≢ ok k
    → Gone k now r.0
Creates-Gone k entry s now later ttl w (after, err e) c g le ne = λ t h. c t k h ∙ g t (omega arith)
Creates-Gone k entry s now later ttl w (after, ok state) (_, c) g le ne = λ t h.
    elim (Bool-cases (eq_bytes state k)) [
      | inl same ↦ absurd (ne (ap ok ((eq_bytes_iff state k).0 same)))
      | inr other ↦ c t k h ∙ rw other (g t (omega arith))
    ]

consume-Gone :
    (k j : Bytes) (s now : ℤ) (w : MemoryStateStore)
    → IsValid w
    → Gone k s w
    → s ≤ℤ now
    → Gone k now (consume_state_entry now j w).0
consume-Gone k j s now w v g le = λ t h. elim (Bool-cases (eq_bytes j k)) [
  | inl same ↦ (consume_state_entry_lem now t k j w v h).1 ∙ rw same
  | inr other ↦ (consume_state_entry_lem now t k j w v h).1 ∙ rw other (g t (omega arith))
]

Later-Gone :
    {k : Bytes} {s : ℤ} {u : MemoryStateStore} {t : ℤ} {w : MemoryStateStore}
    → IsValid u
    → Gone k s u
    → Later k s u t w
    → IsValid w × Gone k t w
Later-Gone v g here = (v, g)
Later-Gone {k} v g (created {w = w} draw now later entry ttl r le ne e) =
    let (v', g') = Later-Gone v g r in
    rw e (
      create-IsValid draw now later entry ttl w v',
      Creates-Gone k entry _ now later ttl w _
          (create_state_entry_lem draw now later entry ttl w v') g' le ne,
    )
Later-Gone {k} v g (consumed {w = w} now j r le e) =
    let (v', g') = Later-Gone v g r in
    rw e (consume-IsValid now j w v', consume-Gone k j _ now w v' g' le)

-- A state is good for one consume: after it, whatever calls follow, every further consume of that state
-- finds nothing, until a create draws the same state again.
pub consumed_once :
    (k : Bytes) (s t now : ℤ) (store w : MemoryStateStore)
    → IsValid store
    → Later k s (consume_state_entry s k store).0 t w
    → t ≤ℤ now
    → (consume_state_entry now k w).1 ≡ none
consumed_once k s t now store w v r le =
    let gone : Gone k s (consume_state_entry s k store).0 =
      λ t' h. (consume_state_entry_lem s t' k k store v h).1 ∙ rw (eq_bytes_refl k) in
    let (v', g) = Later-Gone (consume-IsValid s k store v) gone r in
    (consume_state_entry_lem now now k k w v' (omega arith)).0 ∙ g now le
