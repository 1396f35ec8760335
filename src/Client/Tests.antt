-- ===== src/Client/Tests.antt =====
-- Logins over a Redis store and a server of one process, and the theorems about them at concrete inputs.
pub mod Replay
pub mod Binding
mod Concurrent
mod Validation
use uidentity.Base.{
  ℕ, ◌+◌, true, false, [], ◌∷◌, none, some, Bytes, codes, Dict, lookup, insert_or_assign, eq_bytes,
  erase_if, map, ok, ◌≡◌, ◌≢◌, refl, sym, arith, All, IsByte,
}
use mathlib.Core.List.{cons-ne-nil}
use uidentity.Base.Int.{ℤ, pos}
use uidentity.Http.{AuthConfig}
use uidentity.Pkce.{
  PkcePair, pick, generate_random_string, sha256_raw, to_url_char, drop_padding, base64url_encode,
  clamp, generate_pkce_pair,
}
use uidentity.Pkce.Shape.{rfc4648}
use uidentity.Pkce.Counted.{counted, some_library}
use uidentity.StateStore.Entry.{StateEntry}
use uidentity.StateStore.Memory.{consume_state_entry, cleanup_expired_unsafe}
use uidentity.StateStore.Random.{random_state_32, hex_pairs}
use uidentity.StateStore.Redis.Store.{allocate, create_state_entry, create_state}
use uidentity.StateStore.Redis.Server.{set_if_absent, server_command, at_key, server_KeepsPromises}
use uidentity.Validator.Keys.{HttpClient}
use uidentity.OAuth.Types.{no_tokens, no_user, granted}
use uidentity.OAuth.TokenService.{TokenServiceConfig, exchange_authorization_code}
use uidentity.Auth.PkceStrategy.{
  KeycloakRealmConfig, AuthStart, create_authorization_url, construct,
}
use uidentity.Client.Store.{Store, KeepsStates, Exchange, exchanged, callback_refused}
use uidentity.Client.Store.Memory.{
  Process, IsSteady, Outlives, memory_store, memory_store-KeepsStates,
}
use uidentity.Client.Store.Redis.{redis_store, IsStorable, redis_store-KeepsStates}
use uidentity.Client.Keycloak
use uidentity.Client.Keycloak.Laws.{complete_login-start_login}
use uidentity.Client.MultiRealm
use uidentity.Client.MultiRealm.Realms.{IsNamed, first_of, name_of, construct_manager-realms}
use uidentity.Client.MultiRealm.Login.{complete_login-start_login_of_realm}
use uidentity.Client.MultiRealm.Replay.{complete_login_twice}

abbrev pub sixteen : Bytes
sixteen = 0 ∷ 1 ∷ 2 ∷ 3 ∷ 4 ∷ 5 ∷ 6 ∷ 7 ∷ 8 ∷ 9 ∷ 10 ∷ 11 ∷ 12 ∷ 13 ∷ 14 ∷ 255 ∷ []

abbrev pub some_store : Store (Dict Bytes)
some_store = redis_store server_command (codes "pkce:") (λ i. some sixteen)

pub some_store-KeepsStates : KeepsStates some_store IsStorable
some_store-KeepsStates =
    redis_store-KeepsStates server_command at_key server_KeepsPromises (codes "pkce:")
      (λ i. some sixteen)

redis_store-KeepsStates_example :
    KeepsStates (redis_store server_command (codes "pkce:") (λ i. some sixteen)) IsStorable
redis_store-KeepsStates_example =
    redis_store-KeepsStates server_command at_key server_KeepsPromises (codes "pkce:")
      (λ i. some sixteen)

abbrev pub realm_config : KeycloakRealmConfig
realm_config = record {
  base_url = codes "https://k";
  realm = codes "main";
  client_id = codes "c";
  redirect_uri = codes "https://s/cb";
  scopes = [];
  pkce_verifier_len = 43;
  omit_default_port = true;
}

abbrev some_pair : PkcePair
some_pair = record {
  code_verifier = codes "HHHHHHHHHHHHHHHHHHHHHHHHHHHHHHHHHHHHHHHHHHH";
  code_challenge = codes "__4";
}

pair_made : generate_pkce_pair some_library 43 ≡ ok some_pair
unfolding pick counted generate_pkce_pair generate_random_string sha256_raw base64url_encode clamp
    rfc4648 drop_padding to_url_char
pair_made = refl

abbrev pub some_start : AuthStart
some_start =
    create_authorization_url realm_config (codes "000102030405060708090a0b0c0d0eff") some_pair

pub state_given : some_start.state ≡ codes "000102030405060708090a0b0c0d0eff"
unfolding create_authorization_url
state_given = refl

pub state_there : some_start.state ≢ []
unfolding create_authorization_url
state_there = cons-ne-nil _ _

-- It counts the exchanges.
abbrev counting : Exchange ℕ
counting code verifier n = (n + 1, ok (granted 200 no_tokens no_user))

login_started :
    (Keycloak.start_login some_store some_library counting realm_config (pos 300) []).1
    ≡ ok some_start
unfolding Keycloak.start_login create_state create_state_entry allocate random_state_32 hex_pairs
    set_if_absent lookup server_command eq_bytes pick counted generate_pkce_pair
    generate_random_string sha256_raw base64url_encode clamp rfc4648 drop_padding to_url_char
login_started = refl

pair-IsStorable :
    (realm : Bytes) (pkce : PkcePair)
    → All IsByte realm
    → generate_pkce_pair some_library 43 ≡ ok pkce
    → IsStorable (record { code_verifier = pkce.code_verifier; realm = realm }) (pos 300)
pair-IsStorable realm pkce h e =
    let same : some_pair ≡ pkce = cc (pair_made, e) in
    rw (sym same) (omega arith, h, cons-ne-nil _ _)

complete_login-start_login_example :
    let s' = (Keycloak.start_login some_store some_library counting realm_config (pos 300) []).0 in
    let done =
      Keycloak.complete_login some_store some_library counting realm_config
        (record { code = codes "x"; state = some_start.state })
        (s', 0) in
    (pkce : PkcePair) × (generate_pkce_pair some_library 43 ≡ ok pkce)
    × (some_start ≡ create_authorization_url realm_config some_start.state pkce)
    × (done.1 ≡ (exchanged counting (codes "main") (codes "x") pkce.code_verifier 0).1)
    × (done.0.1 ≡ (exchanged counting (codes "main") (codes "x") pkce.code_verifier 0).0)
complete_login-start_login_example =
    complete_login-start_login some_store IsStorable some_store-KeepsStates some_library counting
      realm_config (pos 300) [] 0 some_start (codes "x") login_started (cons-ne-nil _ _) state_there
      (λ pkce e. pair-IsStorable [] pkce tt e)

abbrev pub token_config : TokenServiceConfig
token_config = record {
  base_url = codes "https://k";
  realm = codes "main";
  client_id = codes "c";
  client_secret = none;
  redirect_uri = codes "https://s/cb";
}

abbrev auth_config : AuthConfig
auth_config = record {
  expected_issuer = codes "i";
  jwks_url = codes "http://k/c";
  jwks_cache_ttl = pos 300;
  require_audience = false;
  expected_audience = [];
  expected_azp = [];
  clock_skew_seconds = pos 60;
}

abbrev pub one_config : MultiRealm.MultiRealmConfig
one_config = record { realm = realm_config; token = token_config; auth = auth_config }

-- The same realm twice.
abbrev pub manager : MultiRealm.MultiRealmManager
manager = record {
  realms_ = (codes "main", MultiRealm.runtime_of one_config) ∷ [];
  realm_order_ = codes "main" ∷ codes "main" ∷ [];
}

manager_made : MultiRealm.construct_manager (one_config ∷ one_config ∷ []) ≡ ok manager
unfolding MultiRealm.construct_manager MultiRealm.check_realms MultiRealm.add_realms
    MultiRealm.add_realm MultiRealm.emplace construct lookup insert_or_assign eq_bytes
manager_made = refl

construct_manager-realms_example :
    IsNamed manager
    × ((name : Bytes)
        → lookup name manager.realms_ ≡ first_of name (one_config ∷ one_config ∷ []) none)
    × (manager.realm_order_ ≡ map name_of (one_config ∷ one_config ∷ []))
construct_manager-realms_example =
    construct_manager-realms (one_config ∷ one_config ∷ []) manager manager_made

pub manager-IsNamed : IsNamed manager
manager-IsNamed = (construct_manager-realms (one_config ∷ one_config ∷ []) manager manager_made).0

pub main_there :
    MultiRealm.lookup_realm manager (codes "main") ≡ ok (MultiRealm.runtime_of one_config)
unfolding MultiRealm.lookup_realm lookup eq_bytes
main_there = refl

abbrev pub silent : HttpClient ℕ
silent request n = (n + 1, record { status_code = 0; headers = []; body = [] })

pub realm_started :
    (MultiRealm.start_login some_store some_library silent 40 manager (codes "main") (pos 300) []).1
    ≡ ok some_start
unfolding MultiRealm.start_login MultiRealm.lookup_realm create_state_entry allocate random_state_32
    hex_pairs set_if_absent lookup server_command eq_bytes pick counted generate_pkce_pair
    generate_random_string sha256_raw base64url_encode clamp rfc4648 drop_padding to_url_char
realm_started = refl
