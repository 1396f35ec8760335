-- ===== src/OAuth/Types.antt =====
-- TokenSet, UserInfo and OAuthResult of oauth/types.hpp, and the two ends of every exchange: the result of
-- a guard, and a request that is sent.
use uidentity.Base.{ℕ, Bool, true, false, List, [], Bytes, codes, Result, ok, err, ◌>>=◌}
use uidentity.Base.Int.{ℤ, pos}
use uidentity.Http.{Request, Response}
use uidentity.Validator.Keys.{HttpClient}

pub record TokenSet : Type 0 where
  pub access_token : Bytes
  pub id_token : Bytes
  pub refresh_token : Bytes
  pub token_type : Bytes
  pub scope : Bytes
  pub expires_in : ℤ
  pub refresh_expires_in : ℤ

pub record UserInfo : Type 0 where
  pub sub : Bytes
  pub preferred_username : Bytes
  pub email : Bytes
  pub roles : List Bytes

pub record OAuthResult : Type 0 where
  pub accepted : Bool
  pub http_status : ℕ
  pub error : Bytes
  pub tokens : TokenSet
  pub user_info : UserInfo

-- `TokenSet{}`
abbrev pub no_tokens : TokenSet
no_tokens = record {
  access_token = [];
  id_token = [];
  refresh_token = [];
  token_type = codes "Bearer";
  scope = [];
  expires_in = pos 0;
  refresh_expires_in = pos 0;
}

-- `UserInfo{}`
abbrev pub no_user : UserInfo
no_user = record { sub = []; preferred_username = []; email = []; roles = [] }

abbrev pub refused : ℕ → Bytes → OAuthResult
refused http_status error = record {
  accepted = false;
  http_status = http_status;
  error = error;
  tokens = no_tokens;
  user_info = no_user;
}

abbrev pub granted : ℕ → TokenSet → UserInfo → OAuthResult
granted http_status tokens user_info = record {
  accepted = true;
  http_status = http_status;
  error = [];
  tokens = tokens;
  user_info = user_info;
}

-- `co_await http_client_.send(request)`, where making the request may throw.
unfoldable pub deliver : {W : Type 0} → HttpClient W → Result Request → W → W × Result Response
deliver send (err e) w = (w, err e)
deliver send (ok request) w = let (after, response) = send request w in (after, ok response)

-- What is made of the response.
abbrev pub answer : {W A B : Type 0} → (A → Result B) → W × Result A → W × Result B
answer f (w, r) = (w, r >>= f)
