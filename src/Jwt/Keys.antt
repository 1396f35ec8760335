-- ===== src/Jwt/Keys.antt =====
-- Jwk and extract_jwks of jwt_utils.hpp.
use uidentity.Base.{
  ℕ, Bool, true, false, List, [], ◌∷◌, none, some, Bytes, codes, is_empty, ◌==◌, if◌then◌else◌,
  Result, ok, ◌>>=◌, value_or,
}
use uidentity.Json.Extract.{extract_json_string, extract_json_array}
use uidentity.Json.Arrays.{split_json_array_elements}

pub record Jwk : Type 0 where
  pub kid : Bytes
  pub kty : Bytes
  pub alg : Bytes
  pub n : Bytes
  pub e : Bytes

-- `extract_json_string(json, key).value_or(otherwise)`
unfoldable pub string_or : ℕ → Bytes → Bytes → Bytes → Result Bytes
string_or fuel json key otherwise = do
  found ← extract_json_string fuel json key
  ok (value_or found otherwise)

unfoldable pub read_jwk : ℕ → Bytes → Result Jwk
read_jwk fuel element = do
  kid ← string_or fuel element (codes "kid") []
  kty ← string_or fuel element (codes "kty") []
  alg ← string_or fuel element (codes "alg") []
  n ← string_or fuel element (codes "n") []
  e ← string_or fuel element (codes "e") []
  ok (record { kid = kid; kty = kty; alg = alg; n = n; e = e })

unfoldable pub starts_object : Bytes → Bool
starts_object [] = false
starts_object (c ∷ s) = c == b'{'

-- The loop over the elements: an object with a key type is a key.
unfoldable pub read_jwks : ℕ → List Bytes → Result (List Jwk)
read_jwks fuel [] = ok []
read_jwks fuel (element ∷ elements) = elim (starts_object element) [
  | false ↦ read_jwks fuel elements
  | true ↦ do
    jwk ← read_jwk fuel element
    keys ← read_jwks fuel elements
    ok (if is_empty jwk.kty then keys else jwk ∷ keys)
]

unfoldable pub extract_jwks : ℕ → Bytes → Result (List Jwk)
extract_jwks fuel jwks_json = do
  array ← extract_json_array fuel jwks_json (codes "keys")
  elim array [
    | none ↦ ok []
    | some raw ↦ do elements ← split_json_array_elements fuel raw; read_jwks fuel elements
  ]
