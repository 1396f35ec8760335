-- ===== src/Validator/Validate/Hang.antt =====
-- Tokens on which `validate` does not come to an end.
use uidentity.Base.{
  ℕ, Bool, false, [], ◌∷◌, ◌++◌, some, Bytes, codes, is_empty, find_after, split_first, Lacks, err,
  Error, ◌≡◌, refl, arith,
}
use uidentity.Http.{AuthConfig}
use uidentity.Json.Extract.{quoted, extract_json_string, extract_json_value}
use uidentity.Json.Text.{IsBlank}
use uidentity.Json.Rounds.{opening}
use uidentity.Json.Hang.{wrong_closing, extract_json_value_hangs}
use uidentity.Jwt.Token.{DecodedJwt, decode_jwt}
use uidentity.Jwt.Keys.{string_or}
use uidentity.Jwt.Signature.{Openssl}
use uidentity.Validator.Outcome.{go_on, abort}
use uidentity.Validator.Stages.{check_config, read_header}
use uidentity.Validator.Keys.{HttpClient, JwksCache}
use uidentity.Validator.Validate.{front, validate, Readings}

string_or-fails :
    (fuel : ℕ) (json name otherwise : Bytes)
    → extract_json_value fuel json name ≡ err Error.out_of_fuel
    → string_or fuel json name otherwise ≡ err Error.out_of_fuel
unfolding string_or extract_json_string
string_or-fails fuel json name otherwise h = ground (arith, h)

token-ne-nil :
    (token : Bytes) (jwt : DecodedJwt) → decode_jwt token ≡ some jwt → is_empty token ≡ false
unfolding decode_jwt split_first
token-ne-nil [] jwt h = cc
token-ne-nil (c ∷ token) jwt h = refl

read_header-fails :
    (fuel : ℕ) (token : Bytes) (jwt : DecodedJwt)
    → decode_jwt token ≡ some jwt
    → string_or fuel jwt.header_json (codes "alg") [] ≡ err Error.out_of_fuel
    → read_header fuel token ≡ abort Error.out_of_fuel
unfolding read_header
read_header-fails fuel token jwt d h = ground (arith, token-ne-nil token jwt d)

-- Whatever the key set is, whatever the fuel, and before any signature is looked at: a token whose
-- header has, as the value behind its first quoted `alg`, an array that starts with `}` or an object
-- that starts with `]`, keeps `validate` in a loop for ever, if the configuration is complete.
pub validate_hangs :
    {W : Type 0} (send : HttpClient W) (fuel : ℕ) (cfg : AuthConfig) (ssl : Openssl)
    (clock : Readings) (before : W × JwksCache) (b : Bool) (token : Bytes) (jwt : DecodedJwt)
    (m u w t : Bytes)
    → check_config cfg ≡ go_on tt
    → decode_jwt token ≡ some jwt
    → find_after (quoted (codes "alg")) jwt.header_json
      ≡ some (m ++ b':' ∷ (u ++ opening b ∷ (w ++ wrong_closing b ∷ t)))
    → Lacks b':' m
    → IsBlank u
    → IsBlank w
    → validate send fuel cfg ssl clock token before ≡ (before, err Error.out_of_fuel)
unfolding validate front
validate_hangs send fuel cfg ssl clock before b token jwt m u w t c d f l hu hw = ground (
  arith,
  c,
  read_header-fails fuel token jwt d
      (string_or-fails fuel _ _ [] (extract_json_value_hangs b fuel _ _ m u w t f l hu hw)),
)
