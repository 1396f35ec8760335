-- ===== src/Client/MultiRealm/Realms.antt =====
-- The realms of a manager: which configuration each name stands for.
use uidentity.Base.{
  List, [], ◌∷◌, ◌++◌, append_assoc, append-nil, map, Option, none, some, Bytes, is_empty, eq_bytes,
  eq_bytes_iff, Dict, lookup, lookup-insert, if◌then◌else◌, ok, ok_inv, ◌≡◌, refl, ◌∙◌, sym, ap,
  arith, Bool-cases, inl, inr,
}
use uidentity.Auth.PkceStrategy.{KeycloakRealmConfig, construct}
use uidentity.Client.MultiRealm.{
  MultiRealmConfig, RealmRuntime, MultiRealmManager, runtime_of, emplace, add_realm, add_realms,
  check_realms, construct_manager,
}

-- Every runtime stands under its own name.
abbrev pub IsNamed : MultiRealmManager → Type 0
IsNamed manager =
    (name : Bytes) (runtime : RealmRuntime)
    → lookup name manager.realms_ ≡ some runtime
    → runtime.realm_cfg.realm ≡ name

-- The runtime of the first configuration of a name, behind one that is there.
abbrev pub first_of : Bytes → List MultiRealmConfig → Option RealmRuntime → Option RealmRuntime
first_of name configs (some runtime) = some runtime
first_of name [] none = none
first_of name (config ∷ configs) none =
    first_of name configs
      (if eq_bytes config.realm.realm name then some (runtime_of config) else none)

abbrev pub name_of : MultiRealmConfig → Bytes
name_of config = config.realm.realm

construct-same : (cfg cfg' : KeycloakRealmConfig) → construct cfg ≡ ok cfg' → cfg' ≡ cfg
unfolding construct
construct-same cfg cfg' h = ground arith

lookup-emplace :
    (key name : Bytes) (runtime : RealmRuntime) (m : Dict RealmRuntime)
    → lookup name (emplace key runtime m) ≡ (elim (lookup name m) as (λ _. Option RealmRuntime) [
      | some r ↦ some r
      | none ↦ if eq_bytes key name then some runtime else none
    ])
unfolding emplace
lookup-emplace key name runtime m =
    ground (arith, lookup-insert key name runtime m, eq_bytes_iff key name)

first_of_nil : (name : Bytes) (o : Option RealmRuntime) → o ≡ first_of name [] o
first_of_nil name none = refl
first_of_nil name (some r) = refl

first_of-cons :
    (name : Bytes) (config : MultiRealmConfig) (configs : List MultiRealmConfig)
    (o : Option RealmRuntime)
    → first_of name configs (elim o as (λ _. Option RealmRuntime) [
      | some r ↦ some r
      | none ↦ if eq_bytes config.realm.realm name then some (runtime_of config) else none
    ])
      ≡ first_of name (config ∷ configs) o
first_of-cons name config [] (some r) = refl
first_of-cons name config (c ∷ cs) (some r) = refl
first_of-cons name config configs none = refl

add_realm-lookup :
    (name : Bytes) (config : MultiRealmConfig) (manager after : MultiRealmManager)
    → add_realm config manager ≡ ok after
    → (lookup name after.realms_
        ≡ (elim (lookup name manager.realms_) as (λ _. Option RealmRuntime) [
          | some r ↦ some r
          | none ↦ if eq_bytes config.realm.realm name then some (runtime_of config) else none
        ]))
      × (after.realm_order_ ≡ manager.realm_order_ ++ name_of config ∷ [])
unfolding add_realm
add_realm-lookup name config manager after h = elim (Bool-cases (is_empty config.realm.realm)) [
  | inl e ↦ cc (rw (e, add_realm) at h)
  | inr e ↦
      let (cfg, r, c) = ok_inv (construct config.realm) _ (rw (e, add_realm) at h) in
      let same = construct-same config.realm cfg c in
      let placed : lookup name after.realms_
          ≡ lookup name (emplace cfg.realm (runtime_of config) manager.realms_) =
        ground arith in
      let named : after.realm_order_ ≡ manager.realm_order_ ++ cfg.realm ∷ [] = ground arith in
      (
        placed
            ∙ ap
                (λ (k : KeycloakRealmConfig).
                  lookup name (emplace k.realm (runtime_of config) manager.realms_))
                same
            ∙ lookup-emplace config.realm.realm name (runtime_of config) manager.realms_,
        named ∙ ap (λ (k : KeycloakRealmConfig). manager.realm_order_ ++ k.realm ∷ []) same,
      )
]

add_realms-lookup :
    (name : Bytes) (configs : List MultiRealmConfig) (manager after : MultiRealmManager)
    → add_realms configs manager ≡ ok after
    → (lookup name after.realms_ ≡ first_of name configs (lookup name manager.realms_))
      × (after.realm_order_ ≡ manager.realm_order_ ++ map name_of configs)
unfolding add_realms
add_realms-lookup name [] manager after h =
    let same : manager ≡ after = cc in
    rw (sym same)
      (first_of_nil name (lookup name manager.realms_), sym (append-nil manager.realm_order_))
add_realms-lookup name (config ∷ configs) manager after h =
    let (next, r, a) = ok_inv (add_realm config manager) _ h in
    let (found, order) = add_realm-lookup name config manager next a in
    let (founds, orders) = add_realms-lookup name configs next after r in
    (
      founds
          ∙ ap (first_of name configs) found
          ∙ first_of-cons name config configs (lookup name manager.realms_),
      orders
          ∙ ap (λ o. o ++ map name_of configs) order
          ∙ append_assoc manager.realm_order_ (name_of config ∷ []) (map name_of configs),
    )

named_by :
    (config : MultiRealmConfig) (r : RealmRuntime)
    → some (runtime_of config) ≡ some r
    → r.realm_cfg.realm ≡ config.realm.realm
named_by config r e = let same : runtime_of config ≡ r = cc in rw (sym same) refl

first_of-IsNamed :
    (name : Bytes) (configs : List MultiRealmConfig) (o : Option RealmRuntime)
    (runtime : RealmRuntime)
    → ((r : RealmRuntime) → o ≡ some r → r.realm_cfg.realm ≡ name)
    → first_of name configs o ≡ some runtime
    → runtime.realm_cfg.realm ≡ name
first_of-IsNamed name [] none runtime h e = cc
first_of-IsNamed name [] (some r) runtime h e = h runtime e
first_of-IsNamed name (config ∷ configs) (some r) runtime h e = h runtime e
first_of-IsNamed name (config ∷ configs) none runtime h e =
    elim (Bool-cases (eq_bytes config.realm.realm name)) [
      | inl same ↦
          first_of-IsNamed name configs (some (runtime_of config)) runtime
            (λ r s. named_by config r s ∙ (eq_bytes_iff config.realm.realm name).0 same)
            (rw (same, first_of) at e)
      | inr other ↦ first_of-IsNamed name configs none runtime h (rw (other, first_of) at e)
    ]

lookup_nil : (name : Bytes) → lookup {V = RealmRuntime} name [] ≡ none
unfolding lookup
lookup_nil name = refl

-- A manager that was constructed has each realm under its own name, with the first configuration of that
-- name, and it lists the names in the order of the configurations, each as often as it is configured.
pub construct_manager-realms :
    (configs : List MultiRealmConfig) (manager : MultiRealmManager)
    → construct_manager configs ≡ ok manager
    → IsNamed manager
      × ((name : Bytes) → lookup name manager.realms_ ≡ first_of name configs none)
      × (manager.realm_order_ ≡ map name_of configs)
unfolding construct_manager check_realms
construct_manager-realms configs manager h =
    let (made, r, a) =
      ok_inv (add_realms configs (record { realms_ = []; realm_order_ = [] })) check_realms h in
    let same : made ≡ manager = ground arith in
    let found : (name : Bytes) → lookup name manager.realms_ ≡ first_of name configs none = λ name.
      ap (λ (m : MultiRealmManager). lookup name m.realms_) (sym same)
      ∙ (add_realms-lookup name configs _ made a).0
      ∙ ap (first_of name configs) (lookup_nil name) in
    (
      λ name runtime e.
          first_of-IsNamed name configs none runtime (λ r s. cc) (sym (found name) ∙ e),
      found,
      ap (λ (m : MultiRealmManager). m.realm_order_) (sym same)
          ∙ (add_realms-lookup [] configs _ made a).1,
    )
