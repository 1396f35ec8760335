-- ===== src/Validator/Stages.antt =====
-- The checks of `validate` in its order, in the parts that lie between its waits.
use uidentity.Base.{
  ℕ, ◌^◌, true, false, not, ◌&&◌, List, [], ◌∷◌, Option, none, some, Bytes, codes, is_empty,
  eq_bytes, ltb, if◌then◌else◌, has_value, Result, ok, err, Error, ◌≡◌, arith,
}
use uidentity.Base.Int.{ℤ, pos, negsuc, ◌+ℤ◌, ltb_ℤ}
use uidentity.Http.{RequestContext, AuthConfig}
use uidentity.Json.Strings.{contains_string, split_ws}
use uidentity.Json.Extract.{extract_json_string, extract_json_int64}
use uidentity.Jwt.Token.{DecodedJwt, decode_jwt}
use uidentity.Jwt.Keys.{Jwk, string_or}
use uidentity.Jwt.Claims.{extract_audience_values, extract_all_roles}
use uidentity.Jwt.Signature.{Openssl, evp_digest_for_alg, verify_rsa_signature}
use uidentity.Oidc.Endpoints.{last_path_segment}
use uidentity.Validator.Outcome.{Outcome, go_on, ◌>>=◌, ◌>>◌, fail_if, require, lift}

unfoldable pub check_config : AuthConfig → Outcome (Unit {0})
check_config cfg = do
  fail_if (is_empty cfg.expected_issuer) 500 (codes "auth_config_missing_expected_issuer")
  fail_if (is_empty cfg.jwks_url) 500 (codes "auth_config_missing_jwks_url")
  fail_if (cfg.require_audience && is_empty cfg.expected_audience) 500
      (codes "auth_config_missing_expected_audience")

-- A token with the `alg` and the `kid` of its header.
pub record Header : Type 0 where
  pub jwt : DecodedJwt
  pub alg : Bytes
  pub kid : Bytes

unfoldable pub read_header : ℕ → Bytes → Outcome Header
read_header fuel access_token = do
  fail_if (is_empty access_token) 401 (codes "missing_access_token")
  jwt ← require (decode_jwt access_token) 401 (codes "invalid_jwt_format")
  alg ← lift (string_or fuel jwt.header_json (codes "alg") [])
  fail_if (is_empty alg) 401 (codes "jwt_missing_alg")
  fail_if (not (has_value (evp_digest_for_alg alg))) 401 (codes "unsupported_jwt_alg")
  kid ← lift (string_or fuel jwt.header_json (codes "kid") [])
  fail_if (is_empty kid) 401 (codes "jwt_missing_kid")
  go_on (record { jwt = jwt; alg = alg; kid = kid })

-- `std::find_if` by the key id.
unfoldable pub find_key : List Jwk → Bytes → Option Jwk
find_key [] kid = none
find_key (k ∷ ks) kid = if eq_bytes k.kid kid then some k else find_key ks kid

unfoldable pub check_signature : Openssl → List Jwk → Header → Outcome (Unit {0})
check_signature ssl keys header = do
  key ← require (find_key keys header.kid) 401 (codes "jwks_key_not_found")
  fail_if
      (not (verify_rsa_signature ssl key header.alg header.jwt.signing_input header.jwt.signature))
      401 (codes "jwt_signature_invalid")

in_int64 : ℤ → Result ℤ
in_int64 (pos n) = if ltb n (2 ^ 63) then ok (pos n) else err Error.undefined
in_int64 (negsuc n) = if ltb n (2 ^ 63) then ok (negsuc n) else err Error.undefined

-- A sum in `std::int64_t`, where an overflow is undefined.
unfoldable pub add_int64 : ℤ → ℤ → Result ℤ
unfolding in_int64
add_int64 a b = in_int64 (a +ℤ b)

in_int64-ok : (a : ℤ) {c : ℤ} → in_int64 a ≡ ok c → c ≡ a
unfolding in_int64
in_int64-ok (pos n) h = ground arith
in_int64-ok (negsuc n) h = ground arith

-- A sum that did not overflow is the sum.
pub add_int64-ok : (a b : ℤ) {c : ℤ} → add_int64 a b ≡ ok c → c ≡ a +ℤ b
unfolding add_int64
add_int64-ok a b h = in_int64-ok (a +ℤ b) h

unfoldable pub check_issuer : ℕ → AuthConfig → Bytes → Outcome (Unit {0})
check_issuer fuel cfg payload = do
  found ← lift (extract_json_string fuel payload (codes "iss"))
  issuer ← require found 401 (codes "jwt_missing_issuer")
  fail_if (is_empty issuer) 401 (codes "jwt_missing_issuer")
  fail_if (not (eq_bytes issuer cfg.expected_issuer)) 401 (codes "jwt_issuer_mismatch")

unfoldable pub check_expiry : ℕ → AuthConfig → ℤ → Bytes → Outcome (Unit {0})
check_expiry fuel cfg now payload = do
  found ← lift (extract_json_int64 fuel payload (codes "exp"))
  exp ← require found 401 (codes "jwt_missing_exp")
  limit ← lift (add_int64 exp cfg.clock_skew_seconds)
  fail_if (ltb_ℤ limit now) 401 (codes "jwt_expired")

unfoldable pub not_before : AuthConfig → ℤ → Option ℤ → Outcome (Unit {0})
not_before cfg now none = go_on tt
not_before cfg now (some nbf) = do
  latest ← lift (add_int64 now cfg.clock_skew_seconds)
  fail_if (ltb_ℤ latest nbf) 401 (codes "jwt_not_yet_valid")

unfoldable pub check_not_before : ℕ → AuthConfig → ℤ → Bytes → Outcome (Unit {0})
check_not_before fuel cfg now payload = do
  found ← lift (extract_json_int64 fuel payload (codes "nbf"))
  not_before cfg now found

unfoldable pub match_audience : ℕ → AuthConfig → Bytes → Outcome (Unit {0})
match_audience fuel cfg payload = do
  audiences ← lift (extract_audience_values fuel payload)
  fail_if (not (contains_string audiences cfg.expected_audience)) 403
      (codes "jwt_audience_mismatch")

unfoldable pub check_audience : ℕ → AuthConfig → Bytes → Outcome (Unit {0})
check_audience fuel cfg payload = elim cfg.require_audience [
  | false ↦ go_on tt
  | true ↦ match_audience fuel cfg payload
]

unfoldable pub match_azp : ℕ → AuthConfig → Bytes → Outcome (Unit {0})
match_azp fuel cfg payload = do
  azp ← lift (string_or fuel payload (codes "azp") [])
  fail_if (not (eq_bytes azp cfg.expected_azp)) 403 (codes "jwt_azp_mismatch")

unfoldable pub check_azp : ℕ → AuthConfig → Bytes → Outcome (Unit {0})
check_azp fuel cfg payload = elim (is_empty cfg.expected_azp) [
  | true ↦ go_on tt
  | false ↦ match_azp fuel cfg payload
]

unfoldable pub build_context : ℕ → Bytes → Outcome RequestContext
build_context fuel payload = do
  sub ← lift (string_or fuel payload (codes "sub") [])
  preferred_username ← lift (string_or fuel payload (codes "preferred_username") [])
  issuer ← lift (string_or fuel payload (codes "iss") [])
  client ← lift (string_or fuel payload (codes "client_id") [])
  client_id ← lift (string_or fuel payload (codes "azp") client)
  roles ← lift (extract_all_roles fuel payload)
  scope ← lift (string_or fuel payload (codes "scope") [])
  go_on (record {
    authenticated = true;
    sub = sub;
    preferred_username = preferred_username;
    realm = if is_empty issuer then [] else last_path_segment issuer;
    issuer = issuer;
    client_id = client_id;
    roles = roles;
    scopes = split_ws scope;
  })

-- What follows once the keys are at hand.
unfoldable pub check_claims : ℕ → AuthConfig → ℤ → Bytes → Outcome RequestContext
check_claims fuel cfg now payload = do
  check_issuer fuel cfg payload
  check_expiry fuel cfg now payload
  check_not_before fuel cfg now payload
  check_audience fuel cfg payload
  check_azp fuel cfg payload
  build_context fuel payload
