-- ===== src/Client/Tests/Validation.antt =====
-- A token at a manager of one realm.
use uidentity.Base.{
  List, [], ◌∷◌, codes, lookup, eq_bytes, some, ok, ◌≡◌, refl, sym, ◌∙◌, Bool-cases, inl, inr,
  eq_bytes_iff,
}
use uidentity.Jwt.Keys.{Jwk}
use uidentity.Validator.Stages.{Header}
use uidentity.Validator.Front.{GoodConfig, GoodHeader}
use uidentity.Validator.Validate.{accept}
use uidentity.Validator.Validate.Soundness.{KeysOf, Passed}
use uidentity.Validator.Tests.{
  config, library, clock, token, warm, offline, accepted_context, accepts, accepted_true,
}
use uidentity.Pkce.Counted.{some_library}
use uidentity.Client.MultiRealm
use uidentity.Client.MultiRealm.Realms.{IsNamed}
use uidentity.Client.MultiRealm.Validation.{validate_of_lem, validate_of_sound}
use uidentity.Client.Tests.{some_store, realm_config, token_config}

abbrev warm_runtime : MultiRealm.RealmRuntime
warm_runtime = record {
  realm_cfg = realm_config;
  token_cfg = token_config;
  auth_cfg = config;
  cache = warm.1;
}

abbrev warm_manager : MultiRealm.MultiRealmManager
warm_manager = record {
  realms_ = (codes "main", warm_runtime) ∷ [];
  realm_order_ = codes "main" ∷ [];
}

warm_there : MultiRealm.lookup_realm warm_manager (codes "main") ≡ ok warm_runtime
unfolding MultiRealm.lookup_realm lookup eq_bytes
warm_there = refl

warm_accepts :
    (MultiRealm.validate_of some_store some_library offline 40 library clock
      (codes "main")
      token
      (tt, warm_manager)).1
    ≡ ok (accept accepted_context)
warm_accepts =
    (validate_of_lem some_store some_library offline 40 library clock (codes "main") token
      (codes "main") tt warm_manager warm_runtime warm_there).0
    ∙ accepts

own_name :
    (r : MultiRealm.RealmRuntime) → some warm_runtime ≡ some r → r.realm_cfg.realm ≡ codes "main"
own_name r e = let same : warm_runtime ≡ r = cc in rw (sym same) refl

warm-IsNamed : IsNamed warm_manager
unfolding lookup
warm-IsNamed name runtime e = elim (Bool-cases (eq_bytes (codes "main") name)) [
  | inl same ↦ own_name runtime (rw same at e) ∙ (eq_bytes_iff (codes "main") name).0 same
  | inr other ↦ cc (rw other at e)
]

validate_of_sound_example :
    IsNamed
      (MultiRealm.validate_of some_store some_library offline 40 library clock
        (codes "main")
        token
        (tt, warm_manager)).0.1
    × ((header : Header) × (keys : List Jwk) × GoodConfig config
        × GoodHeader 40 token header
        × KeysOf offline 40 config clock (tt, warm.1) keys
        × Passed 40 config library clock.system keys header (accept accepted_context))
validate_of_sound_example =
    validate_of_sound some_store some_library offline 40 library clock (codes "main") token tt
      warm_manager warm_runtime (accept accepted_context) warm-IsNamed warm_there warm_accepts
      accepted_true
