-- ===== src/Jwt/Tests.antt =====
-- Runs of the token decoder, and the theorems about it at concrete inputs.
use uidentity.Base.{[], ◌∷◌, ◌++◌, codes, some, ◌≡◌, refl, arith, true, false, if◌then◌else◌}
use uidentity.Base.{Bytes, ok}
use uidentity.Json.Running.{json_code}
use uidentity.Json.Words.{IsUnique}
use uidentity.Jwt.Keys.{starts_object}
use uidentity.Jwt.Claims.{client_roles, resource_roles, realm_roles, extract_all_roles}
use uidentity.Jwt.Roles.{Includes, extract_all_roles-IsUnique}
use uidentity.Jwt.Base64.{base64url_decode, decode_bits, decode_base64url_char, shift_in}
use uidentity.Jwt.Base64RoundTrip.{rfc4648_url}
use uidentity.Jwt.Signature.{Fates, build_key, pkey}
use uidentity.Jwt.Ownership.{held_after, build_key-owned}
use uidentity.Jwt.Token.{decode_jwt, compact, decode_jwt-compact}

-- Padding ends the text, whatever stands behind it.
stops_at_padding : base64url_decode (codes "YQ==!") ≡ some (codes "a")
unfolding base64url_decode decode_bits decode_base64url_char shift_in
stops_at_padding = refl

decode_jwt-compact_example :
    decode_jwt (compact (codes "{}") (codes "{\"a\":1}") (codes "sig"))
    ≡ some (record {
      signing_input = rfc4648_url (codes "{}") ++ b'.' ∷ rfc4648_url (codes "{\"a\":1}");
      header_json = codes "{}";
      payload_json = codes "{\"a\":1}";
      signature = codes "sig";
    })
decode_jwt-compact_example =
    decode_jwt-compact (codes "{}") (codes "{\"a\":1}") (codes "sig") (omega arith) (omega arith)
      (omega arith)

-- The last call fails.
abbrev unlucky : Fates
unlucky = record {
  n_ok = true;
  e_ok = true;
  rsa_ok = true;
  set_ok = true;
  pkey_ok = true;
  assign_ok = false;
}

build_key-owned_example :
    held_after (build_key unlucky).0 [] ≡ some (if (build_key unlucky).1 then pkey ∷ [] else [])
build_key-owned_example = build_key-owned unlucky

abbrev claims : Bytes
claims =
    codes
      "{\"realm_access\":{\"roles\":[\"a\",\"b\",\"a\"]},\"resource_access\":{\"app\":{\"roles\":[\"b\",\"c\"]}}}"

unfoldable role_code : Unit {0}
unfolding json_code starts_object client_roles resource_roles realm_roles extract_all_roles
role_code = tt

realm_read : realm_roles 99 claims ≡ ok (codes "a" ∷ codes "b" ∷ [])
unfolding role_code
realm_read = refl

all_read : extract_all_roles 99 claims ≡ ok (codes "a" ∷ codes "b" ∷ codes "c" ∷ [])
unfolding role_code
all_read = refl

extract_all_roles-IsUnique_example :
    IsUnique (codes "a" ∷ codes "b" ∷ codes "c" ∷ [])
    × Includes (codes "a" ∷ codes "b" ∷ codes "c" ∷ []) (codes "a" ∷ codes "b" ∷ [])
extract_all_roles-IsUnique_example =
    extract_all_roles-IsUnique 99 claims (codes "a" ∷ codes "b" ∷ [])
      (codes "a" ∷ codes "b" ∷ codes "c" ∷ []) realm_read all_read
