-- ===== src/Client/Tests/Concurrent.antt =====
-- A login between whose start and callback another login starts and another callback comes.
use uidentity.Base.{ℕ, [], ◌∷◌, Option, some, Bytes, codes}
use uidentity.Base.Int.{pos}
use uidentity.Pkce.Counted.{some_library}
use uidentity.StateStore.Memory
use uidentity.Client.Store.{Store, CallbackInput}
use uidentity.Client.Store.Memory.{Process, memory_store}
use uidentity.Client.MultiRealm
use uidentity.Client.Tests.{manager, silent}
use uidentity.Client.Tests.Replay.{counted_clock}

-- Each create has other random bytes.
abbrev draws : ℕ → ℕ → Option Bytes
draws n i = some (n ∷ 1 ∷ 2 ∷ 3 ∷ 4 ∷ 5 ∷ 6 ∷ 7 ∷ 8 ∷ 9 ∷ 10 ∷ 11 ∷ 12 ∷ 13 ∷ 14 ∷ 255 ∷ [])

abbrev stores : Store Process
stores = memory_store counted_clock draws

abbrev new : Process
new = record { store = record { map_ = [] }; valid = tt; readings = 0; creates = 0 }

abbrev one_started : Process
one_started =
    (MultiRealm.start_login stores some_library silent 40 manager (codes "main") (pos 300) new).0

abbrev two_started : Process
two_started =
    (MultiRealm.start_login stores some_library silent 40 manager (codes "main") (pos 300)
      one_started).0

abbrev stray : CallbackInput
stray = record { code = codes "y"; state = codes "s" }

abbrev stray_done : Process
stray_done =
    (MultiRealm.complete_login stores some_library silent 40 manager stray (two_started, 3)).0.0
