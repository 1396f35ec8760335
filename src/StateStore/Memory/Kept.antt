-- ===== src/StateStore/Memory/Kept.antt =====
-- How long MemoryStateStore keeps an entry, among other calls under a clock that does not go back.
use uidentity.Base.{
  ℕ, true, Option, none, some, Bytes, eq_bytes, eq_bytes_iff, Result, ok, err, ◌≡◌, ◌≢◌, ◌∙◌, refl,
  sym, ap, arith, Bool-cases, inl, inr,
}
use uidentity.Base.Int.{ℤ, ◌≤ℤ◌, ◌+ℤ◌, ltb_ℤ}
use uidentity.StateStore.Entry.{StateEntry}
use uidentity.StateStore.Memory.{MemoryStateStore, create_state_entry, consume_state_entry}
use uidentity.StateStore.Memory.Laws.{
  live, IsValid, Creates, consume_state_entry_lem, consume-IsValid, create_state_entry_lem,
  create-IsValid,
}

-- `Others k s u t w`: calls lead from the store `u` at time `s` to `w` at time `t`, in any order, and
-- no consume among them is of the state `k`. What the creates draw is open.
pub data Others (k : Bytes) (s : ℤ) (u : MemoryStateStore) : ℤ → MemoryStateStore → Type 0 where
  start : Others k s u s u
  created :
      {t : ℤ} {w w' : MemoryStateStore} (draw : ℕ → Option Bytes) (now later : ℤ)
      (entry : StateEntry) (ttl : ℤ)
      → Others k s u t w
      → t ≤ℤ now
      → w' ≡ (create_state_entry draw now later entry ttl w).0
      → Others k s u now w'
  consumed :
      {t : ℤ} {w w' : MemoryStateStore} (now : ℤ) (j : Bytes)
      → Others k s u t w
      → t ≤ℤ now
      → j ≢ k
      → w' ≡ (consume_state_entry now j w).0
      → Others k s u now w'

-- From a time on and until a limit, the state has the entry.
abbrev Held : Bytes → StateEntry → ℤ → ℤ → MemoryStateStore → Type 0
Held k e limit s w = (t : ℤ) → s ≤ℤ t → ltb_ℤ t limit ≡ true → live t k w ≡ some e

-- A create returns only a state without an entry, so it cannot be one that is held.
Creates-Held :
    (k : Bytes) (e entry : StateEntry) (limit s now later ttl : ℤ) (w : MemoryStateStore)
    (r : MemoryStateStore × Result Bytes)
    → Creates entry now later ttl w r
    → Held k e limit s w
    → s ≤ℤ now
    → ltb_ℤ now limit ≡ true
    → Held k e limit now r.0
Creates-Held k e entry limit s now later ttl w (after, err x) c g le b =
    λ t h lt. c t k h ∙ g t (omega arith) lt
Creates-Held k e entry limit s now later ttl w (after, ok state) (fresh, c) g le b = λ t h lt.
    elim (Bool-cases (eq_bytes state k)) [
      | inl same ↦
          let q : none ≡ some e =
            sym fresh ∙ ap (λ j. live now j w) ((eq_bytes_iff state k).0 same) ∙ g now le b in
          ground (arith, q)
      | inr other ↦ c t k h ∙ rw other (g t (omega arith) lt)
    ]

consume-Held :
    (k j : Bytes) (e : StateEntry) (limit s now : ℤ) (w : MemoryStateStore)
    → IsValid w
    → Held k e limit s w
    → s ≤ℤ now
    → j ≢ k
    → Held k e limit now (consume_state_entry now j w).0
consume-Held k j e limit s now w v g le ne = λ t h lt. elim (Bool-cases (eq_bytes j k)) [
  | inl same ↦ absurd (ne ((eq_bytes_iff j k).0 same))
  | inr other ↦ (consume_state_entry_lem now t k j w v h).1 ∙ rw other (g t (omega arith) lt)
]

before : (s t limit : ℤ) → s ≤ℤ t → ltb_ℤ t limit ≡ true → ltb_ℤ s limit ≡ true
before s t limit h lt = ground arith

Others-Held :
    {k : Bytes} {s : ℤ} {u : MemoryStateStore} {t : ℤ} {w : MemoryStateStore} (e : StateEntry)
    (limit : ℤ)
    → IsValid u
    → Held k e limit s u
    → ltb_ℤ t limit ≡ true
    → Others k s u t w
    → IsValid w × Held k e limit t w
Others-Held e limit v g b start = (v, g)
Others-Held {k} e limit v g b (created {t} {w = w} draw now later entry ttl r le q) =
    let (v', g') = Others-Held e limit v g (before t now limit le b) r in
    rw q (
      create-IsValid draw now later entry ttl w v',
      Creates-Held k e entry limit t now later ttl w _
          (create_state_entry_lem draw now later entry ttl w v') g' le b,
    )
Others-Held {k} e limit v g b (consumed {t} {w = w} now j r le ne q) =
    let (v', g') = Others-Held e limit v g (before t now limit le b) r in
    rw q (consume-IsValid now j w v', consume-Held k j e limit t now w v' g' le ne)

created-Held :
    (k : Bytes) (entry : StateEntry) (now later ttl : ℤ) (store : MemoryStateStore)
    (r : MemoryStateStore × Result Bytes)
    → Creates entry now later ttl store r
    → r.1 ≡ ok k
    → Held k entry (later +ℤ ttl) now r.0
created-Held k entry now later ttl store (after, err x) c d = absurd (ground arith)
created-Held k entry now later ttl store (after, ok state) (fresh, c) d = λ t h lt.
    let same : eq_bytes state k ≡ true = (eq_bytes_iff state k).1 (ground arith) in
    c t k h ∙ rw (same, lt) refl

-- A state that a create returned gives the entry of that create to the first consume of it, whatever
-- creates and consumes of other states come between, as long as the clock does not go back and has
-- not reached the stamp plus the lifetime. No draw between them is restricted. The store holds no key
-- twice at the create.
pub consume-create_between :
    (draw : ℕ → Option Bytes) (now later ttl t end : ℤ) (entry : StateEntry) (k : Bytes)
    (store w : MemoryStateStore)
    → IsValid store
    → (create_state_entry draw now later entry ttl store).1 ≡ ok k
    → Others k now (create_state_entry draw now later entry ttl store).0 t w
    → t ≤ℤ end
    → ltb_ℤ end (later +ℤ ttl) ≡ true
    → (consume_state_entry end k w).1 ≡ some entry
consume-create_between draw now later ttl t end entry k store w v d r le b =
    let g =
      created-Held k entry now later ttl store _
        (create_state_entry_lem draw now later entry ttl store v) d in
    let (v', g') =
      Others-Held entry (later +ℤ ttl) (create-IsValid draw now later entry ttl store v) g
        (before t end (later +ℤ ttl) le b) r in
    (consume_state_entry_lem end end k k w v' (omega arith)).0 ∙ g' end le b
