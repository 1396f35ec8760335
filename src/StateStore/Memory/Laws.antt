-- ===== src/StateStore/Memory/Laws.antt =====
-- MemoryStateStore against its specification: a partial map from states to entries that have not yet
-- expired, from which a consumed state is gone.
use mathlib.Core.Path.{ap₂}
use uidentity.Base.{
  ℕ, zero, suc, ◌+◌, Bool, true, false, Option, none, some, Bytes, IsDict, lookup, insert_or_assign,
  drop_if, lookup-erase_if, lookup-insert, lookup-erase, erase_if-IsDict, insert-IsDict,
  erase-IsDict, eq_bytes, if◌then◌else◌, Result, ok, err, ◌≡◌, refl, ◌∙◌, ap, sym, eq_bytes_iff,
  arith, Bool-cases, inl, inr,
}
use uidentity.Base.Int.{ℤ, ◌+ℤ◌, ◌≤ℤ◌, ltb_ℤ}
use uidentity.StateStore.Entry.{StateEntry}
use uidentity.StateStore.Memory.{
  Entry, MemoryStateStore, is_expired, cleanup_expired_unsafe, allocate, create_state_entry,
  consume_state_entry,
}

-- The entry of a state at a time, for a client of the store.
abbrev pub visible : ℤ → Option Entry → Option StateEntry
visible now none = none
visible now (some e) =
    if is_expired now e then none else some (record { code_verifier = e.verifier; realm = e.realm })

pub live : ℤ → Bytes → MemoryStateStore → Option StateEntry
live now state store = visible now (lookup state store.map_)

abbrev pub IsValid : MemoryStateStore → Type 0
IsValid store = IsDict store.map_

is_expired_mono : (s t : ℤ) (e : Entry) → s ≤ℤ t → is_expired s e ≡ true → is_expired t e ≡ true
is_expired_mono s t e h x = ground arith

-- What is expired is not visible later, so a cleanup does not show.
visible-drop_if :
    (s t : ℤ) (o : Option Entry) → s ≤ℤ t → visible t (drop_if (is_expired s) o) ≡ visible t o
visible-drop_if s t none h = refl
visible-drop_if s t (some e) h = elim (Bool-cases (is_expired s e)) [
  | inl x ↦ rw (x, is_expired_mono s t e h x)
  | inr x ↦ rw x
]

cleanup-live :
    (s t : ℤ) (k : Bytes) (store : MemoryStateStore)
    → IsValid store
    → s ≤ℤ t
    → live t k (cleanup_expired_unsafe s store) ≡ live t k store
unfolding live cleanup_expired_unsafe
cleanup-live s t k store v h =
    ap (visible t) (lookup-erase_if (is_expired s) k store.map_ v) ∙ visible-drop_if s t _ h

pub cleanup-IsValid :
    (s : ℤ) (store : MemoryStateStore) → IsValid store → IsValid (cleanup_expired_unsafe s store)
unfolding cleanup_expired_unsafe
cleanup-IsValid s store = erase_if-IsDict (is_expired s) store.map_

abbrev to_state_entry : Option Entry → Option StateEntry
to_state_entry none = none
to_state_entry (some e) = some (record { code_verifier = e.verifier; realm = e.realm })

-- Behind a cleanup every entry that is there is visible.
visible-cleaned :
    (s : ℤ) (o : Option Entry)
    → visible s (drop_if (is_expired s) o) ≡ to_state_entry (drop_if (is_expired s) o)
visible-cleaned s none = refl
visible-cleaned s (some e) = elim (Bool-cases (is_expired s e)) [ inl x ↦ rw x | inr x ↦ rw (x, x) ]

lookup-clean :
    (s : ℤ) (k : Bytes) (store : MemoryStateStore)
    → IsValid store
    → to_state_entry (lookup k (cleanup_expired_unsafe s store).map_) ≡ live s k store
unfolding live cleanup_expired_unsafe
lookup-clean s k store v =
    let e = lookup-erase_if (is_expired s) k store.map_ v in
    rw e (sym (visible-cleaned s (lookup k store.map_)) ∙ visible-drop_if s s _ (omega arith))

visible-if :
    (t : ℤ) (b : Bool) (o r : Option Entry)
    → visible t (if b then o else r) ≡ (if b then visible t o else visible t r)
visible-if t true o r = refl
visible-if t false o r = refl

consume_result :
    (now : ℤ) (k : Bytes) (store : MemoryStateStore)
    → (consume_state_entry now k store).1
      ≡ to_state_entry (lookup k (cleanup_expired_unsafe now store).map_)
unfolding consume_state_entry
consume_result now k store = ground arith

consume_map :
    (now : ℤ) (j k : Bytes) (store : MemoryStateStore)
    → lookup j (consume_state_entry now k store).0.map_
      ≡ (if eq_bytes k j then none else lookup j (cleanup_expired_unsafe now store).map_)
unfolding consume_state_entry
consume_map now j k store =
    let clean = cleanup_expired_unsafe now store in
    ground (arith, lookup-erase k j clean.map_, eq_bytes_iff k j)

-- A consume returns what the store holds for the state at that time, and takes it out: from then on
-- the state has no entry, and every other state has the entry that it had.
pub consume_state_entry_lem :
    (now t : ℤ) (j k : Bytes) (store : MemoryStateStore)
    → IsValid store
    → now ≤ℤ t
    → ((consume_state_entry now k store).1 ≡ live now k store)
      × (live t j (consume_state_entry now k store).0
          ≡ (if eq_bytes k j then none else live t j store))
consume_state_entry_lem now t j k store v h = (
  consume_result now k store ∙ lookup-clean now k store v,
  unfold live in
      (ap (visible t) (consume_map now j k store)
        ∙ visible-if t (eq_bytes k j) none _
        ∙ ap (λ r. if eq_bytes k j then none else r) (cleanup-live now t j store v h)),
)

pub consume-IsValid :
    (now : ℤ) (k : Bytes) (store : MemoryStateStore)
    → IsValid store
    → IsValid (consume_state_entry now k store).0
unfolding consume_state_entry
consume-IsValid now k store v =
    ground
      (arith, cleanup-IsValid now store v, erase-IsDict k (cleanup_expired_unsafe now store).map_)

-- What a create does to the store: an error leaves the entries, and a success adds one under a state
-- that had none.
abbrev Allocates : StateEntry → ℤ → ℤ → MemoryStateStore → MemoryStateStore × Result Bytes → Type 0
Allocates entry now ttl store (after, err e) = after ≡ store
Allocates entry now ttl store (after, ok state) =
    (lookup state store.map_ ≡ none)
    × (after.map_
        ≡ insert_or_assign state
            (record {
              verifier = entry.code_verifier;
              realm = entry.realm;
              expires_at = now +ℤ ttl;
            })
            store.map_)

allocate-Allocates :
    (n i : ℕ) (draw : ℕ → Option Bytes) (now : ℤ) (entry : StateEntry) (ttl : ℤ)
    (store : MemoryStateStore)
    → Allocates entry now ttl store (allocate n i draw now entry ttl store)
unfolding allocate
allocate-Allocates zero i draw now entry ttl store = refl
allocate-Allocates (suc n) i draw now entry ttl store =
    ground (arith, allocate-Allocates n (i + 1) draw now entry ttl store)

-- The specification of a create at `now` whose entry is stamped at `later`, by its result.
abbrev pub Creates :
    StateEntry → ℤ → ℤ → ℤ → MemoryStateStore → MemoryStateStore × Result Bytes → Type 0
Creates entry now later ttl store (after, err e) =
    (t : ℤ) (j : Bytes) → now ≤ℤ t → live t j after ≡ live t j store
Creates entry now later ttl store (after, ok state) =
    (live now state store ≡ none)
    × ((t : ℤ) (j : Bytes)
        → now ≤ℤ t
        → live t j after ≡ (
            if eq_bytes state j
            then (if ltb_ℤ t (later +ℤ ttl) then some entry else none)
            else live t j store))

visible_stamp :
    (t : ℤ) (entry : StateEntry) (e : ℤ)
    → visible t
        (some (record { verifier = entry.code_verifier; realm = entry.realm; expires_at = e }))
      ≡ (if ltb_ℤ t e then some entry else none)
visible_stamp t entry e = elim (Bool-cases (ltb_ℤ t e)) [ inl x ↦ rw x | inr x ↦ rw x ]

Allocates-Creates :
    (entry : StateEntry) (now later ttl : ℤ) (store : MemoryStateStore)
    (r : MemoryStateStore × Result Bytes)
    → IsValid store
    → Allocates entry later ttl (cleanup_expired_unsafe now store) r
    → Creates entry now later ttl store r
Allocates-Creates entry now later ttl store (after, err e) v h =
    λ t j le. rw h (cleanup-live now t j store v le)
Allocates-Creates entry now later ttl store (after, ok state) v (fresh, placed) = (
  sym (lookup-clean now state store v) ∙ rw fresh,
  λ t j le.
      unfold live in
      rw placed (
        ap (visible t) (lookup-insert state j _ (cleanup_expired_unsafe now store).map_)
        ∙ visible-if t (eq_bytes state j) _ _
        ∙ ap₂ (λ (x y : Option StateEntry). if eq_bytes state j then x else y)
            (visible_stamp t entry (later +ℤ ttl)) (cleanup-live now t j store v le)),
)

-- A create that succeeds returns a state that had no entry, and gives it the entry until the clock
-- reaches its stamp plus the lifetime. All other states, and all of them where it fails, keep theirs.
pub create_state_entry_lem :
    (draw : ℕ → Option Bytes) (now later : ℤ) (entry : StateEntry) (ttl : ℤ)
    (store : MemoryStateStore)
    → IsValid store
    → Creates entry now later ttl store (create_state_entry draw now later entry ttl store)
unfolding create_state_entry
create_state_entry_lem draw now later entry ttl store v =
    Allocates-Creates entry now later ttl store _ v
      (allocate-Allocates 8 0 draw later entry ttl (cleanup_expired_unsafe now store))

Allocates-IsValid :
    (entry : StateEntry) (now ttl : ℤ) (store : MemoryStateStore)
    (r : MemoryStateStore × Result Bytes)
    → IsValid store
    → Allocates entry now ttl store r
    → IsValid r.0
Allocates-IsValid entry now ttl store (after, err e) v h = rw h v
Allocates-IsValid entry now ttl store (after, ok state) v (_, placed) =
    rw placed (insert-IsDict state _ store.map_ v)

pub create-IsValid :
    (draw : ℕ → Option Bytes) (now later : ℤ) (entry : StateEntry) (ttl : ℤ)
    (store : MemoryStateStore)
    → IsValid store
    → IsValid (create_state_entry draw now later entry ttl store).0
unfolding create_state_entry
create-IsValid draw now later entry ttl store v =
    Allocates-IsValid entry later ttl _ _ (cleanup-IsValid now store v)
      (allocate-Allocates 8 0 draw later entry ttl (cleanup_expired_unsafe now store))
