-- ===== src/StateStore/Redis/Server.antt =====
-- A server of one process that keeps its promises: a map from keys to strings.
use uidentity.Base.{
  [], ◌∷◌, Option, none, some, Bytes, codes, Dict, lookup, lookup-insert, lookup-erase,
  insert_or_assign, erase, eq_bytes_refl, ◌≡◌, refl, arith,
}
use uidentity.StateStore.Redis.Store.{Response, null, simple_string, bulk_string, other, Client}
use uidentity.StateStore.Redis.Laws.{KeepsPromises}

unfoldable pub set_if_absent : Bytes → Bytes → Dict Bytes → Option Bytes → Dict Bytes × Response
set_if_absent key value s none = (insert_or_assign key value s, simple_string (codes "OK"))
set_if_absent key value s (some old) = (s, null)

unfoldable pub reply_of : Option Bytes → Response
reply_of none = null
reply_of (some value) = bulk_string value

unfoldable pub server_command : Client (Dict Bytes)
unfolding set_if_absent reply_of
server_command (c ∷ key ∷ value ∷ options) s = set_if_absent key value s (lookup key s)
server_command (c ∷ key ∷ []) s = (erase key s, reply_of (lookup key s))
server_command _ s = (s, other)

abbrev pub at_key : Dict Bytes → Bytes → Option Bytes
at_key s key = lookup key s

set_if_absent-ok :
    (key value : Bytes) (s : Dict Bytes) (o : Option Bytes)
    → (set_if_absent key value s o).1 ≡ simple_string (codes "OK")
    → (o ≡ none) × (lookup key (set_if_absent key value s o).0 ≡ some value)
unfolding set_if_absent
set_if_absent-ok key value s none h =
    (refl, ground (arith, lookup-insert key key value s, eq_bytes_refl key))
set_if_absent-ok key value s (some old) h = cc

pub server_KeepsPromises : KeepsPromises server_command at_key
unfolding reply_of set_if_absent server_command
server_KeepsPromises = record {
  set_stores = λ s key value ttl h. set_if_absent-ok key value s (lookup key s) h;
  getdel_returns = λ s key value h. rw h;
  getdel_removes = λ s key. ground (arith, lookup-erase key key s, eq_bytes_refl key);
  getdel_missing = λ s key h. rw h;
}
