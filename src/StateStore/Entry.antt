-- ===== src/StateStore/Entry.antt =====
-- StateEntry of state_store.hpp.
use uidentity.Base.{Bytes}

pub record StateEntry : Type 0 where
  pub code_verifier : Bytes
  pub realm : Bytes
