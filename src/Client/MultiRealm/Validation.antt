-- ===== src/Client/MultiRealm/Validation.antt =====
-- Tokens of one realm at a manager of several.
use uidentity.Base.{
  ℕ, true, List, some, Bytes, lookup, lookup-insert, eq_bytes, eq_bytes_iff, if◌then◌else◌, ok, ◌≡◌,
  refl, ◌∙◌, sym, ap, Bool-cases, inl, inr,
}
use uidentity.Jwt.Keys.{Jwk}
use uidentity.Jwt.Signature.{Openssl}
use uidentity.Validator.Keys.{HttpClient}
use uidentity.Validator.Outcome.{JwtValidationResult}
use uidentity.Validator.Stages.{Header}
use uidentity.Validator.Front.{GoodConfig, GoodHeader}
use uidentity.Validator.Validate.{Readings, validate}
use uidentity.Validator.Validate.Soundness.{Passed, KeysOf, validate_sound}
use uidentity.Client.Store.{Store}
use uidentity.Pkce.{Library}
use uidentity.Client.MultiRealm.{RealmRuntime, MultiRealmManager, lookup_realm, validate_of}
use uidentity.Client.MultiRealm.Realms.{IsNamed}
use uidentity.Client.MultiRealm.Login.{lookup_realm-ok}

realm_of_some :
    {r found : RealmRuntime} → some r ≡ some found → found.realm_cfg.realm ≡ r.realm_cfg.realm
realm_of_some {r} {found} e =
    let same : r ≡ found = cc in sym (ap (λ (x : RealmRuntime). x.realm_cfg.realm) same)

module _ {S W : Type 0} (store : Store S) (library : Library) (send : HttpClient W) (fuel : ℕ)
    (ssl : Openssl) (clock : Readings) where
  -- The realm that a call validates for, behind it.
  abbrev pub validated : RealmRuntime → Bytes → W → RealmRuntime
  validated runtime token w = record runtime {
    cache = (validate send fuel runtime.auth_cfg ssl clock token (w, runtime.cache)).0.1;
  }

  -- A validation for a realm ends as the validation with that realm's settings and keys does, and leaves
  -- all that the manager has of the other realms.
  pub validate_of_lem :
      (realm token name : Bytes) (w : W) (manager : MultiRealmManager) (runtime : RealmRuntime)
      → lookup_realm manager realm ≡ ok runtime
      → let after = validate_of store library send fuel ssl clock realm token (w, manager) in
        let alone = validate send fuel runtime.auth_cfg ssl clock token (w, runtime.cache) in
        (after.1 ≡ alone.1)
        × (after.0.0 ≡ alone.0.0)
        × (lookup name after.0.1.realms_ ≡ (
            if eq_bytes realm name
            then some (validated runtime token w)
            else lookup name manager.realms_))
  unfolding validate_of
  validate_of_lem realm token name w manager runtime l =
      rw (l, validate_of)
        (refl, refl, lookup-insert realm name (validated runtime token w) manager.realms_)

  pub validate_of-IsNamed :
      (realm token : Bytes) (w : W) (manager : MultiRealmManager) (runtime : RealmRuntime)
      → lookup_realm manager realm ≡ ok runtime
      → IsNamed manager
      → IsNamed (validate_of store library send fuel ssl clock realm token (w, manager)).0.1
  validate_of-IsNamed realm token w manager runtime l named name found e =
      let (_, _, there) = validate_of_lem realm token name w manager runtime l in
      elim (Bool-cases (eq_bytes realm name)) [
        | inl same ↦
            let own = named realm runtime (lookup_realm-ok manager realm runtime l) in
            let placed : some (validated runtime token w) ≡ some found =
              sym (rw same at there) ∙ e in
            realm_of_some placed ∙ own ∙ (eq_bytes_iff realm name).0 same
        | inr other ↦ named name found (sym (rw other at there) ∙ e)
      ]

  -- A token that a manager accepts for a realm has passed the checks of that realm's settings, with a key
  -- of that realm's cache or of its key set, and every runtime still stands under its own name.
  pub validate_of_sound :
      (realm token : Bytes) (w : W) (manager : MultiRealmManager) (runtime : RealmRuntime)
      (result : JwtValidationResult)
      → IsNamed manager
      → lookup_realm manager realm ≡ ok runtime
      → (validate_of store library send fuel ssl clock realm token (w, manager)).1 ≡ ok result
      → result.accepted ≡ true
      → IsNamed (validate_of store library send fuel ssl clock realm token (w, manager)).0.1
        × ((header : Header) × (keys : List Jwk) × GoodConfig runtime.auth_cfg
            × GoodHeader fuel token header
            × KeysOf send fuel runtime.auth_cfg clock (w, runtime.cache) keys
            × Passed fuel runtime.auth_cfg ssl clock.system keys header result)
  validate_of_sound realm token w manager runtime result named l h t =
      let (alone, _, _) = validate_of_lem realm token realm w manager runtime l in
      (
        validate_of-IsNamed realm token w manager runtime l named,
        validate_sound send fuel runtime.auth_cfg ssl clock token (w, runtime.cache) result
            (sym alone ∙ h) t,
      )
