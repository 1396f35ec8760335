-- ===== src/Validator/Tasks.antt =====
-- Calls of `validate` that share a cache. Between two waits a call runs by itself: it looks at the cache,
-- waits for the response, and stores the keys; each of these is a move, and the moves of the calls come in
-- any order.
pub mod Alone
pub mod Sound
pub mod Invariant
use uidentity.Base.{
  ℕ, suc, ◌<◌, Bool, List, [], ◌∷◌, none, Bytes, ◌==◌, if◌then◌else◌, Result, ok, err, ◌≡◌,
}
use uidentity.Base.Int.{ℤ, pos}
use uidentity.Http.{AuthConfig, Response}
use uidentity.Oidc.Requests.{make_json_get}
use uidentity.Jwt.Signature.{Openssl}
use uidentity.Validator.Outcome.{go_on, return, abort, JwtValidationResult}
use uidentity.Validator.Stages.{Header}
use uidentity.Validator.Keys.{HttpClient, JwksCache, cached_keys, store_keys}
use uidentity.Validator.Validate.{front, back, finish, with_fetched}

-- Where a call stands.
pub data Task : Type 0 where
  called : Bytes → Task
  fetching : Bytes → Header → Task
  received : Bytes → Header → Response → Task
  done : Bytes → Result JwtValidationResult → Task

module _ {W : Type 0} (send : HttpClient W) (fuel : ℕ) (cfg : AuthConfig) (ssl : Openssl) where
  -- Up to the wait: `steady` is read at the cache and `now` at the claims.
  unfoldable pub look_up : ℤ → ℤ → Bytes → JwksCache → Task
  look_up steady now token cache = elim (front fuel cfg token) [
    | return result ↦ done token (ok result)
    | abort e ↦ done token (err e)
    | go_on header ↦ elim (cached_keys steady cache) [
      | k ∷ ks ↦ done token (finish (back fuel cfg ssl now (k ∷ ks) header))
      | [] ↦ fetching token header
    ]
  ]

  -- The wait for the key set.
  unfoldable pub receive : Bytes → Header → W → W × Task
  receive token header w = elim (make_json_get cfg.jwks_url none) [
    | err e ↦ (w, done token (err e))
    | ok request ↦ let (after, response) = send request w in (after, received token header response)
  ]

  -- Behind the wait: `steady` is read when the keys are stored.
  unfoldable pub store : ℤ → ℤ → Bytes → Header → Response → JwksCache → JwksCache × Task
  store steady now token header response cache =
      let (after, keys) = store_keys fuel cfg steady response cache in
      (after, done token (with_fetched fuel cfg ssl now header keys))

-- Any number of calls over a network and a cache. `read_at` is kept for the theorems: the reading of the
-- system clock in the last move of a call that read it.
pub record System (W : Type 0) : Type 0 where
  pub world : W
  pub cache : JwksCache
  pub task : ℕ → Task
  pub read_at : ℕ → ℤ

-- A function that is changed at one place.
unfoldable pub update : {A : Type 0} → (ℕ → A) → ℕ → A → ℕ → A
update f i a j = if i == j then a else f j

abbrev pub cold : JwksCache
cold = record { keys = []; expires_at = pos 0 }

-- The calls of these tokens, with the cache of a new validator.
abbrev pub initial : {W : Type 0} → (ℕ → Bytes) → W → System W
initial tokens w = record {
  world = w;
  cache = cold;
  task = λ i. called (tokens i);
  read_at = λ i. pos 0;
}

module _ {W : Type 0} (send : HttpClient W) (fuel : ℕ) (cfg : AuthConfig) (ssl : Openssl) where
  -- A move of one of the first `n` calls.
  pub data Step (n : ℕ) (s : System W) : System W → Type 0 where
    looks_up :
        (i : ℕ) (steady now : ℤ) {token : Bytes}
        → i < n
        → s.task i ≡ called token
        → Step n s (record s {
          task = update s.task i (look_up send fuel cfg ssl steady now token s.cache);
          read_at = update s.read_at i now;
        })
    receives :
        (i : ℕ) {token : Bytes} {header : Header}
        → i < n
        → s.task i ≡ fetching token header
        → Step n s (record s {
          world = (receive send fuel cfg ssl token header s.world).0;
          task = update s.task i (receive send fuel cfg ssl token header s.world).1;
        })
    stores :
        (i : ℕ) (steady now : ℤ) {token : Bytes} {header : Header} {response : Response}
        → i < n
        → s.task i ≡ received token header response
        → Step n s (record s {
          cache = (store send fuel cfg ssl steady now token header response s.cache).0;
          task =
              update s.task i (store send fuel cfg ssl steady now token header response s.cache).1;
          read_at = update s.read_at i now;
        })

  -- `Reach n tokens w k s`: some `k` moves of the first `n` calls, in any order, lead to `s`.
  pub data Reach (n : ℕ) (tokens : ℕ → Bytes) (w : W) : ℕ → System W → Type 0 where
    start : Reach n tokens w 0 (initial tokens w)
    later :
        {k : ℕ} {s t : System W} → Reach n tokens w k s → Step n s t → Reach n tokens w (suc k) t

-- The token of a call.
abbrev pub token_of : Task → Bytes
token_of (called token) = token
token_of (fetching token header) = token
token_of (received token header response) = token
token_of (done token result) = token
