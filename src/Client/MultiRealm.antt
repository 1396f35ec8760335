-- ===== src/Client/MultiRealm.antt =====
-- MultiRealmManager of multi_realm.hpp. The map from names to runtimes holds the configurations and the
-- key cache of each realm; the store and the HTTP client are parameters.
pub mod Realms
pub mod Login
pub mod Replay
pub mod Concurrent
pub mod Binding
pub mod Validation
use uidentity.Base.{
  ℕ, Bool, true, false, ◌||◌, List, [], ◌∷◌, ◌++◌, Option, none, some, Bytes, codes, is_empty,
  eq_bytes, has_value, Dict, lookup, insert_or_assign, if◌then◌else◌, Result, ok, err, Error, ◌>>=◌,
}
use uidentity.Base.Int.{ℤ, pos}
use uidentity.Http.{AuthConfig}
use uidentity.Pkce.{PkcePair, Library, generate_pkce_pair}
use uidentity.Jwt.Signature.{Openssl}
use uidentity.StateStore.Entry.{StateEntry}
use uidentity.OAuth.Types.{OAuthResult}
use uidentity.OAuth.TokenService.{
  TokenServiceConfig, exchange_authorization_code, refresh_tokens, revoke_token,
}
use uidentity.Auth.PkceStrategy.{
  KeycloakRealmConfig, AuthStart, create_authorization_url, construct,
}
use uidentity.Validator.Keys.{HttpClient, JwksCache}
use uidentity.Validator.Outcome.{JwtValidationResult}
use uidentity.Validator.Validate.{Readings, validate}
use uidentity.Client.Store.{Store, CallbackInput, CallbackResult, callback_refused, exchanged}
use uidentity.Client.Keycloak.{to_url}

pub record MultiRealmConfig : Type 0 where
  pub realm : KeycloakRealmConfig
  pub token : TokenServiceConfig
  pub auth : AuthConfig

pub record RealmRuntime : Type 0 where
  pub realm_cfg : KeycloakRealmConfig
  pub token_cfg : TokenServiceConfig
  pub auth_cfg : AuthConfig
  pub cache : JwksCache

pub record MultiRealmManager : Type 0 where
  pub realms_ : Dict RealmRuntime
  pub realm_order_ : List Bytes

abbrev pub runtime_of : MultiRealmConfig → RealmRuntime
runtime_of config = record {
  realm_cfg = config.realm;
  token_cfg = config.token;
  auth_cfg = config.auth;
  cache = record { keys = []; expires_at = pos 0 };
}

-- `emplace`: what is there already stays.
unfoldable pub emplace {ℓ} : {V : Type ℓ} → Bytes → V → Dict V → Dict V
emplace key value m = if has_value (lookup key m) then m else insert_or_assign key value m

-- One round of the constructor. The strategy of a runtime refuses an incomplete configuration.
unfoldable pub add_realm : MultiRealmConfig → MultiRealmManager → Result MultiRealmManager
add_realm config manager =
    if is_empty config.realm.realm
    then err (Error.invalid_argument (codes "realm name must not be empty"))
    else construct config.realm >>= λ cfg. ok (record {
      realms_ = emplace cfg.realm (runtime_of config) manager.realms_;
      realm_order_ = manager.realm_order_ ++ cfg.realm ∷ [];
    })

unfoldable pub add_realms : List MultiRealmConfig → MultiRealmManager → Result MultiRealmManager
add_realms [] manager = ok manager
add_realms (config ∷ configs) manager =
    add_realm config manager >>= λ after. add_realms configs after

unfoldable pub check_realms : MultiRealmManager → Result MultiRealmManager
check_realms manager =
    if is_empty manager.realms_
    then err (Error.invalid_argument (codes "at least one realm must be configured"))
    else ok manager

unfoldable pub construct_manager : List MultiRealmConfig → Result MultiRealmManager
construct_manager configs =
    add_realms configs (record { realms_ = []; realm_order_ = [] }) >>= check_realms

unfoldable pub has_realm : MultiRealmManager → Bytes → Bool
has_realm manager realm = has_value (lookup realm manager.realms_)

unfoldable pub realm_names : MultiRealmManager → List Bytes
realm_names manager = manager.realm_order_

unfoldable pub lookup_realm : MultiRealmManager → Bytes → Result RealmRuntime
lookup_realm manager realm = elim (lookup realm manager.realms_) [
  | none ↦ err (Error.invalid_argument (codes "unknown realm"))
  | some runtime ↦ ok runtime
]

module _ {S W : Type 0} (store : Store S) (library : Library) (send : HttpClient W) (fuel : ℕ) where
  unfoldable pub start_login : MultiRealmManager → Bytes → ℤ → S → S × Result AuthStart
  start_login manager realm ttl s = elim (lookup_realm manager realm) [
    | err e ↦ (s, err e)
    | ok runtime ↦ elim (generate_pkce_pair library runtime.realm_cfg.pkce_verifier_len) [
      | err e ↦ (s, err e)
      | ok pkce ↦ to_url runtime.realm_cfg pkce (
          store.create_state_entry
            (record { code_verifier = pkce.code_verifier; realm = runtime.realm_cfg.realm }) ttl s)
    ]
  ]

  -- The exchange goes to the realm that the entry names.
  unfoldable pub finish_login :
      MultiRealmManager
      → Bytes
      → W
      → S × Result (Option StateEntry)
      → (S × W) × Result CallbackResult
  finish_login manager code w (s, err e) = ((s, w), err e)
  finish_login manager code w (s, ok none) =
      ((s, w), ok (callback_refused 401 (codes "invalid_or_expired_state")))
  finish_login manager code w (s, ok (some entry)) = elim (lookup entry.realm manager.realms_) [
    | none ↦ ((s, w), ok (callback_refused 400 (codes "unknown_realm")))
    | some runtime ↦
        let (after, result) =
          exchanged (exchange_authorization_code send fuel runtime.token_cfg)
            runtime.realm_cfg.realm code entry.code_verifier w in
        ((s, after), result)
  ]

  unfoldable pub complete_login :
      MultiRealmManager → CallbackInput → S × W → (S × W) × Result CallbackResult
  complete_login manager input (s, w) =
      if is_empty input.code || is_empty input.state
      then ((s, w), ok (callback_refused 400 (codes "missing_code_or_state")))
      else finish_login manager input.code w (store.consume_state_entry input.state s)

  unfoldable pub refresh_tokens_of : MultiRealmManager → Bytes → Bytes → W → W × Result OAuthResult
  refresh_tokens_of manager realm refresh_token w = elim (lookup_realm manager realm) [
    | err e ↦ (w, err e)
    | ok runtime ↦ refresh_tokens send fuel runtime.token_cfg refresh_token w
  ]

  unfoldable pub revoke_token_of :
      MultiRealmManager → Bytes → Bytes → Bytes → W → W × Result OAuthResult
  revoke_token_of manager realm token token_type_hint w = elim (lookup_realm manager realm) [
    | err e ↦ (w, err e)
    | ok runtime ↦ revoke_token send fuel runtime.token_cfg token token_type_hint w
  ]

  -- The key cache of the realm is written back.
  unfoldable pub validate_of :
      Openssl
      → Readings
      → Bytes
      → Bytes
      → W × MultiRealmManager
      → (W × MultiRealmManager) × Result JwtValidationResult
  validate_of ssl clock realm access_token (w, manager) = elim (lookup_realm manager realm) [
    | err e ↦ ((w, manager), err e)
    | ok runtime ↦
        let ((after, cache), result) =
          validate send fuel runtime.auth_cfg ssl clock access_token (w, runtime.cache) in
        (
          (
            after,
            record manager {
              realms_ = insert_or_assign realm (record runtime { cache = cache }) manager.realms_;
            },
          ),
          result,
        )
  ]
