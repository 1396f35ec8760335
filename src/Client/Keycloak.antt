-- ===== src/Client/Keycloak.antt =====
-- KeycloakClient of keycloak_client.hpp. The store, the token service and the middleware are its template
-- parameters.
pub mod Laws
use uidentity.Base.{
  ℕ, Bool, true, false, ◌||◌, List, [], Option, none, some, Bytes, codes, is_empty, eq_bytes,
  if◌then◌else◌, Result, ok, err, Error, ◌>>=◌,
}
use uidentity.Base.Int.{ℤ}
use uidentity.Http.{Request, RequestContext, AuthResult}
use uidentity.Pkce.{PkcePair, Library, generate_pkce_pair}
use uidentity.Auth.PkceStrategy.{
  KeycloakRealmConfig, AuthStart, create_authorization_url, construct,
}
use uidentity.Client.Store.{
  Store, CallbackInput, CallbackResult, callback_refused, Exchange, exchanged,
}

-- The constructor keeps its arguments; that of the strategy refuses a configuration that lacks a field.
unfoldable pub construct_client : KeycloakRealmConfig → Result KeycloakRealmConfig
construct_client cfg = construct cfg

unfoldable pub has_realm : KeycloakRealmConfig → Bytes → Bool
has_realm cfg realm = eq_bytes realm cfg.realm

-- The URL for a state, once there is one.
abbrev pub to_url :
    {S : Type 0} → KeycloakRealmConfig → PkcePair → S × Result Bytes → S × Result AuthStart
to_url cfg pkce (s, r) = (s, r >>= λ state. ok (create_authorization_url cfg state pkce))

module _ {S W : Type 0} (store : Store S) (library : Library) (exchange : Exchange W)
    (cfg : KeycloakRealmConfig) where
  unfoldable pub start_login : ℤ → S → S × Result AuthStart
  start_login ttl s = elim (generate_pkce_pair library cfg.pkce_verifier_len) [
    | err e ↦ (s, err e)
    | ok pkce ↦ to_url cfg pkce (store.create_state pkce.code_verifier ttl s)
  ]

  unfoldable pub start_login_of_realm : Bytes → ℤ → S → S × Result AuthStart
  start_login_of_realm realm ttl s =
      if has_realm cfg realm
      then start_login ttl s
      else (s, err (Error.invalid_argument (codes "unknown realm")))

  unfoldable pub finish_login :
      Bytes → W → S × Result (Option Bytes) → (S × W) × Result CallbackResult
  finish_login code w (s, err e) = ((s, w), err e)
  finish_login code w (s, ok none) =
      ((s, w), ok (callback_refused 401 (codes "invalid_or_expired_state")))
  finish_login code w (s, ok (some verifier)) =
      let (after, result) = exchanged exchange cfg.realm code verifier w in ((s, after), result)

  unfoldable pub complete_login : CallbackInput → S × W → (S × W) × Result CallbackResult
  complete_login input (s, w) =
      if is_empty input.code || is_empty input.state
      then ((s, w), ok (callback_refused 400 (codes "missing_code_or_state")))
      else finish_login input.code w (store.consume_state input.state s)

-- `authenticate` of the middleware.
abbrev pub Authenticate : Type 0 → Type 0
Authenticate W = Request → RequestContext → W → W × Result (Request × RequestContext × AuthResult)

unfoldable pub authenticate_request :
    {W : Type 0}
    → Authenticate W
    → Request
    → RequestContext
    → W
    → W × Result (Request × RequestContext × AuthResult)
authenticate_request authenticate request context w = authenticate request context w
