-- ===== src/StateStore/Redis/Tests.antt =====
-- The theorem about RedisStateStore over it.
use uidentity.Base.{[], ◌∷◌, none, some, Bytes, codes, lookup, eq_bytes, ok, ◌≡◌, refl, arith}
use mathlib.Core.List.{cons-ne-nil}
use uidentity.Base.Int.{pos}
use uidentity.StateStore.Entry.{StateEntry}
use uidentity.StateStore.Random.{random_state_32, hex_pairs}
use uidentity.StateStore.Redis.Store.{allocate, create_state_entry, consume_state_entry}
use uidentity.StateStore.Redis.Server.{set_if_absent, server_command, at_key, server_KeepsPromises}
use uidentity.StateStore.Redis.Laws.{consume-create}

abbrev sixteen : Bytes
sixteen = 0 ∷ 1 ∷ 2 ∷ 3 ∷ 4 ∷ 5 ∷ 6 ∷ 7 ∷ 8 ∷ 9 ∷ 10 ∷ 11 ∷ 12 ∷ 13 ∷ 14 ∷ 255 ∷ []

abbrev some_entry : StateEntry
some_entry = record { code_verifier = codes "v&1"; realm = codes "main" }

created :
    (create_state_entry server_command
      (codes "pkce:")
      (λ i. some sixteen)
      some_entry
      (pos 300)
      []).1
    ≡ ok (codes "000102030405060708090a0b0c0d0eff")
unfolding create_state_entry allocate random_state_32 hex_pairs set_if_absent lookup server_command
    eq_bytes
created = refl

consume-create_example :
    let s₁ =
      (create_state_entry server_command
        (codes "pkce:")
        (λ i. some sixteen)
        some_entry
        (pos 300)
        []).0 in
    let state = codes "000102030405060708090a0b0c0d0eff" in
    let s₂ = (consume_state_entry server_command (codes "pkce:") state s₁).0 in
    ((consume_state_entry server_command (codes "pkce:") state s₁).1 ≡ ok (some some_entry))
    × ((consume_state_entry server_command (codes "pkce:") state s₂).1 ≡ ok none)
consume-create_example =
    consume-create server_command at_key server_KeepsPromises (codes "pkce:") (λ i. some sixteen)
      some_entry (pos 300) [] (codes "000102030405060708090a0b0c0d0eff") (omega arith) (omega arith)
      (cons-ne-nil _ _) created
