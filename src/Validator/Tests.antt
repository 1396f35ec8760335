-- ===== src/Validator/Tests.antt =====
-- Tokens at the validator, and the theorems about it at concrete inputs.
mod Interleaved
use uidentity.Base.{
  true, false, List, [], ◌∷◌, ◌++◌, none, some, Bytes, codes, ok, err, Error, ◌≡◌, ◌≢◌, refl, arith,
  inr, if◌then◌else◌, find_after, eq_bytes,
}
use mathlib.Core.List.{cons-ne-nil}
use uidentity.Base.Int.{pos, ltb_ℤ, ◌+ℤ◌}
use uidentity.Http.{AuthConfig, RequestContext, Response}
use uidentity.Json.Running.{json_code}
use uidentity.Json.Extract.{quoted}
use uidentity.Jwt.Token.{compact, decode_jwt, decode_parts, decode_jwt-compact}
use uidentity.Jwt.Keys.{Jwk, string_or, extract_jwks, read_jwk, read_jwks, starts_object}
use uidentity.Jwt.Base64.{base64url_decode, decode_bits, decode_base64url_char, shift_in}
use uidentity.Jwt.Base64RoundTrip.{rfc4648_url, base64url_char}
use uidentity.Jwt.Claims.{
  extract_audience_values, client_roles, resource_roles, realm_roles, extract_all_roles,
}
use uidentity.Jwt.Signature.{
  Openssl, evp_digest_for_alg, build_key, make_rsa_public_key, verify_rsa_signature,
}
use uidentity.Oidc.Endpoints.{last_path_segment, behind_last_slash, trim_trailing_slash}
use uidentity.Validator.Outcome.{go_on, failure}
use uidentity.Validator.Front.{GoodConfig, GoodHeader}
use uidentity.Validator.Stages.{
  Header, check_config, read_header, find_key, check_signature, add_int64, check_issuer,
  check_expiry, not_before, check_not_before, match_audience, check_audience, match_azp, check_azp,
  build_context, check_claims,
}
use uidentity.Validator.Keys.{
  HttpClient, JwksCache, fetched, cached_keys, store_keys, store_parsed, effective_status,
  is_success, refresh_jwks,
}
use uidentity.Validator.Validate.{
  accept, finish, front, back, with_keys, with_fetched, validate, Readings,
}
use uidentity.Validator.Validate.Soundness.{Passed, KeysOf, validate_sound}
use uidentity.Validator.Validate.CacheUse.{store_keys-cached_keys}
use uidentity.Validator.Validate.Rotation.{fetch_again, validate-store_keys}
use mathlib.Core.Bool.{false≢true}
use uidentity.Validator.Validate.Accepts.{PassingClaims, validate_accepts}
use uidentity.Validator.Validate.Hang.{validate_hangs}

abbrev pub config : AuthConfig
config = record {
  expected_issuer = codes "i";
  jwks_url = codes "http://k/c";
  jwks_cache_ttl = pos 300;
  require_audience = false;
  expected_audience = [];
  expected_azp = [];
  clock_skew_seconds = pos 60;
}

-- A library whose calls succeed, and whose signatures are their texts.
abbrev pub library : Openssl
library = record {
  fates = λ n e. record {
    n_ok = true;
    e_ok = true;
    rsa_ok = true;
    set_ok = true;
    pkey_ok = true;
    assign_ok = true;
  };
  context_ok = true;
  digest_verify = λ d key text signature. eq_bytes signature (codes "good");
}

abbrev pub offline : HttpClient (Unit {0})
offline request w = (w, record { status_code = 0; headers = []; body = [] })

abbrev pub clock : Readings
clock = record { steady_at_cache = pos 5; steady_at_refresh = pos 6; system = pos 1000 }

abbrev key_a : Jwk
key_a = record {
  kid = codes "a";
  kty = codes "RSA";
  alg = codes "RS256";
  n = codes "AQAB";
  e = codes "AQAB";
}

abbrev pub warm : Unit {0} × JwksCache
warm = (tt, record { keys = key_a ∷ []; expires_at = pos 9 })

abbrev pub token : Bytes
token =
    compact (codes "{\"alg\":\"RS256\",\"kid\":\"a\"}") (codes "{\"iss\":\"i\",\"exp\":999}")
      (codes "good")

unfoldable pub run_code : Unit {0}
unfolding json_code eq_bytes decode_jwt decode_parts string_or base64url_decode decode_bits
    decode_base64url_char shift_in rfc4648_url base64url_char evp_digest_for_alg build_key
    make_rsa_public_key verify_rsa_signature extract_audience_values client_roles resource_roles
    realm_roles extract_all_roles last_path_segment behind_last_slash trim_trailing_slash
    check_config read_header find_key check_signature add_int64 check_issuer check_expiry not_before
    check_not_before match_audience check_audience match_azp check_azp build_context check_claims
    failure cached_keys store_keys store_parsed effective_status is_success refresh_jwks accept
    finish front back with_keys with_fetched validate
run_code = tt

abbrev pub accepted_context : RequestContext
accepted_context = record {
  authenticated = true;
  sub = [];
  preferred_username = [];
  realm = codes "i";
  issuer = codes "i";
  client_id = [];
  roles = [];
  scopes = [];
}

pub accepts : (validate offline 40 config library clock token warm).1 ≡ ok (accept accepted_context)
unfolding run_code ◌+ℤ◌
accepts = refl

-- Its `alg` is `[}`.
abbrev hostile : Bytes
hostile = compact (codes "{\"alg\":[}") (codes "{}") (codes "x")

reads_hostile :
    decode_jwt hostile
    ≡ some (record {
      signing_input = rfc4648_url (codes "{\"alg\":[}") ++ b'.' ∷ rfc4648_url (codes "{}");
      header_json = codes "{\"alg\":[}";
      payload_json = codes "{}";
      signature = codes "x";
    })
reads_hostile =
    decode_jwt-compact (codes "{\"alg\":[}") (codes "{}") (codes "x") (omega arith) (omega arith)
      (omega arith)

hostile_found : find_after (quoted (codes "alg")) (codes "{\"alg\":[}") ≡ some (codes ":[}")
unfolding json_code
hostile_found = refl

config_complete : check_config config ≡ go_on tt
unfolding check_config
config_complete = refl

abbrev pub key_set : Response
key_set = record {
  status_code = 200;
  headers = [];
  body =
      codes
        "{\"keys\":[{\"kid\":\"a\",\"kty\":\"RSA\",\"alg\":\"RS256\",\"n\":\"AQAB\",\"e\":\"AQAB\"}]}";
}

abbrev cold : JwksCache
cold = record { keys = []; expires_at = pos 0 }

reads_keys : (store_keys 40 config (pos 7) key_set cold).1 ≡ ok (fetched (key_a ∷ []))
unfolding run_code extract_jwks read_jwk read_jwks starts_object
reads_keys = refl

-- A token under the id of a key that the cache does not hold.
abbrev rotated : Bytes
rotated = compact (codes "{\"alg\":\"RS256\",\"kid\":\"b\"}") (codes "{}") (codes "good")

abbrev rotated_header : Header
rotated_header = record {
  jwt = record {
    signing_input =
        rfc4648_url (codes "{\"alg\":\"RS256\",\"kid\":\"b\"}") ++ b'.' ∷ rfc4648_url (codes "{}");
    header_json = codes "{\"alg\":\"RS256\",\"kid\":\"b\"}";
    payload_json = codes "{}";
    signature = codes "good";
  };
  alg = codes "RS256";
  kid = codes "b";
}

reads_rotated : front 40 config rotated ≡ go_on rotated_header
unfolding run_code
reads_rotated = refl

warm_keys : cached_keys clock.steady_at_cache warm.1 ≢ []
unfolding cached_keys
warm_keys = cons-ne-nil _ _

rotated_missing : find_key (key_a ∷ []) rotated_header.kid ≡ none
unfolding run_code
rotated_missing = refl

pub accepted_true : (accept accepted_context).accepted ≡ true
unfolding accept
accepted_true = refl

validate_sound_example :
    (header : Header) × (keys : List Jwk) × GoodConfig config
    × GoodHeader 40 token header
    × KeysOf offline 40 config clock warm keys
    × Passed 40 config library clock.system keys header (accept accepted_context)
validate_sound_example =
    validate_sound offline 40 config library clock token warm (accept accepted_context) accepts
      accepted_true

validate_hangs_example :
    validate offline 40 config library clock hostile warm ≡ (warm, err Error.out_of_fuel)
validate_hangs_example =
    validate_hangs offline 40 config library clock warm false hostile _ [] [] [] (codes "")
      config_complete reads_hostile hostile_found tt tt tt

validate-store_keys_example :
    validate offline 40 config library clock rotated
      (tt, (store_keys 40 config (pos 7) key_set cold).0)
    ≡ (if ltb_ℤ clock.steady_at_cache (pos 7 +ℤ config.jwks_cache_ttl)
        then (
          (tt, (store_keys 40 config (pos 7) key_set cold).0),
          ok (failure 401 (codes "jwks_key_not_found")),
        )
        else fetch_again offline 40 config library clock rotated_header
            (tt, (store_keys 40 config (pos 7) key_set cold).0))
validate-store_keys_example =
    validate-store_keys offline 40 config library clock (pos 7) key_set (key_a ∷ []) rotated
      rotated_header tt cold reads_keys reads_rotated rotated_missing

store_keys-cached_keys_example :
    (is_success (effective_status key_set) ≡ true)
    × (extract_jwks 40 key_set.body ≡ ok (key_a ∷ []))
    × (key_a ∷ [] ≢ [])
    × (cached_keys (pos 8) (store_keys 40 config (pos 7) key_set cold).0
        ≡ (if ltb_ℤ (pos 8) (pos 7 +ℤ config.jwks_cache_ttl) then key_a ∷ [] else []))
store_keys-cached_keys_example =
    store_keys-cached_keys 40 config (pos 7) (pos 8) key_set cold (key_a ∷ []) reads_keys

abbrev pub good_header : Header
good_header = record {
  jwt = record {
    signing_input =
        rfc4648_url (codes "{\"alg\":\"RS256\",\"kid\":\"a\"}")
        ++ b'.' ∷ rfc4648_url (codes "{\"iss\":\"i\",\"exp\":999}");
    header_json = codes "{\"alg\":\"RS256\",\"kid\":\"a\"}";
    payload_json = codes "{\"iss\":\"i\",\"exp\":999}";
    signature = codes "good";
  };
  alg = codes "RS256";
  kid = codes "a";
}

reads_good : front 40 config token ≡ go_on good_header
unfolding run_code
reads_good = refl

good_there : find_key (cached_keys clock.steady_at_cache warm.1) good_header.kid ≡ some key_a
unfolding run_code
good_there = refl

good_signed :
    verify_rsa_signature library key_a good_header.alg good_header.jwt.signing_input
      good_header.jwt.signature
    ≡ true
unfolding run_code
good_signed = refl

good_claims : PassingClaims 40 config (pos 1000) good_header.jwt.payload_json
unfolding run_code ◌+ℤ◌
good_claims = record {
  issuer_given = cons-ne-nil _ _;
  issuer = refl;
  expiry = (pos 999, pos 1059, refl, refl, omega arith);
  not_before = (none, refl, tt);
  audience = λ on. absurd (false≢true on);
  azp = λ given. absurd (given refl);
}

good_context : build_context 40 good_header.jwt.payload_json ≡ go_on accepted_context
unfolding run_code
good_context = refl

validate_accepts_example :
    validate offline 40 config library clock token warm ≡ (warm, ok (accept accepted_context))
validate_accepts_example =
    validate_accepts offline 40 config library clock token warm good_header key_a accepted_context
      reads_good warm_keys good_there good_signed good_claims good_context
