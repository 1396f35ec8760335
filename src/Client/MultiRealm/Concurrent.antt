-- ===== src/Client/MultiRealm/Concurrent.antt =====
-- A login whose callback comes after other logins and callbacks, over the in-memory store.
use uidentity.Base.{ℕ, Option, Bytes, ◌≡◌, ◌≢◌}
use uidentity.Base.Int.{ℤ, ◌≤ℤ◌}
use uidentity.Pkce.{Library}
use uidentity.StateStore.Memory.{MemoryStateStore}
use uidentity.StateStore.Memory.Kept.{Others}
use uidentity.Validator.Keys.{HttpClient}
use uidentity.Client.Store.{Store, CallbackInput}
use uidentity.Client.Store.Memory.{Process, memory_store}
use uidentity.Client.MultiRealm.{MultiRealmManager, start_login, complete_login}

module _ (clock : ℕ → ℤ) (draw : ℕ → ℕ → Option Bytes) {W : Type 0} (library : Library)
    (send : HttpClient W) (fuel : ℕ) (manager : MultiRealmManager) where
  abbrev store : Store Process
  store = memory_store clock draw

  -- `Served state p q`: logins and callbacks lead from `p` to `q`, in any order and with any outcome, and
  -- no callback among them is with this state.
  pub data Served (state : Bytes) (p : Process) : Process → Type 0 where
    idle : Served state p p
    starts :
        {q q' : Process} (realm : Bytes) (ttl : ℤ)
        → Served state p q
        → q' ≡ (start_login store library send fuel manager realm ttl q).0
        → Served state p q'
    called_back :
        {q q' : Process} (input : CallbackInput) (w : W)
        → Served state p q
        → input.state ≢ state
        → q' ≡ (complete_login store library send fuel manager input (q, w)).0.0
        → Served state p q'

  -- The calls of the store among them.
  abbrev Stored : Bytes → ℤ → MemoryStateStore → Process → Type 0
  Stored state s u q = (t : ℤ) × Others state s u t q.store × (t ≤ℤ clock q.readings)
