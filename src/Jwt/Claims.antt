-- ===== src/Jwt/Claims.antt =====
-- extract_audience_values and extract_all_roles of jwt_utils.hpp.
use uidentity.Base.{
  ℕ, zero, suc, true, false, List, [], ◌∷◌, none, some, Bytes, codes, length, leb, Result, ok, err,
  Error, ◌>>=◌,
}
use uidentity.Json.Skip.{skip_ws, skip_json_string, skip_json_value, skip_byte}
use uidentity.Json.Strings.{append_unique}
use uidentity.Json.Extract.{between, extract_json_string, extract_json_object}
use uidentity.Json.Arrays.{at_end, tail_of, extract_json_string_array}
use uidentity.Jwt.Keys.{starts_object}

-- A string array, or else a single string.
unfoldable pub extract_audience_values : ℕ → Bytes → Result (List Bytes)
extract_audience_values fuel payload = do
  values ← extract_json_string_array fuel payload (codes "aud")
  elim values [
    | v ∷ vs ↦ ok (v ∷ vs)
    | [] ↦ do
      aud ← extract_json_string fuel payload (codes "aud")
      ok (elim aud [ none ↦ [] | some a ↦ a ∷ [] ])
  ]

-- The roles of one client, if its value is an object.
unfoldable pub client_roles : ℕ → List Bytes → Bytes → Result (List Bytes)
client_roles fuel roles value = elim (starts_object value) [
  | false ↦ ok roles
  | true ↦ do
    more ← extract_json_string_array fuel value (codes "roles")
    ok (append_unique roles more)
]

-- The loop over the members of `resource_access`, from a position in it.
unfoldable pub resource_roles : ℕ → ℕ → List Bytes → Bytes → Result (List Bytes)
resource_roles fuel zero roles t = err Error.out_of_fuel
resource_roles fuel (suc n) roles [] = ok roles
resource_roles fuel (suc n) roles (c ∷ []) = ok roles
resource_roles fuel (suc n) roles (c ∷ d ∷ s) =
    let key = skip_ws (c ∷ d ∷ s) in
    let key_end = skip_json_string key in
    let value = skip_ws (skip_byte b':' (skip_ws key_end)) in
    elim (at_end b'}' key) [
      | true ↦ ok roles
      | false ↦ elim (leb (length key) (length key_end)) [
        | true ↦ ok roles
        | false ↦ skip_json_value fuel value >>= λ value_end.
            elim (leb (length value) (length value_end)) [
              | true ↦ ok roles
              | false ↦ client_roles fuel roles (between value value_end) >>= λ roles'.
                  resource_roles fuel n roles' (skip_byte b',' (skip_ws value_end))
            ]
      ]
    ]

unfoldable pub realm_roles : ℕ → Bytes → Result (List Bytes)
realm_roles fuel payload = do
  realm_access ← extract_json_object fuel payload (codes "realm_access")
  elim realm_access [
    | none ↦ ok []
    | some object ↦ do
      more ← extract_json_string_array fuel object (codes "roles")
      ok (append_unique [] more)
  ]

unfoldable pub extract_all_roles : ℕ → Bytes → Result (List Bytes)
extract_all_roles fuel payload = do
  roles ← realm_roles fuel payload
  resource_access ← extract_json_object fuel payload (codes "resource_access")
  elim resource_access [
    | none ↦ ok roles
    | some object ↦ resource_roles fuel fuel roles (tail_of object)
  ]
