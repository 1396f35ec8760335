-- ===== src/Json/Arrays.antt =====
-- split_json_array_elements and extract_json_string_array of json_utils.hpp.
use uidentity.Base.{
  ℕ, zero, suc, Bool, true, false, ◌&&◌, List, [], ◌∷◌, none, some, Bytes, length, leb, ◌==◌,
  if◌then◌else◌, Result, ok, err, Error, ◌>>=◌,
}
use uidentity.Json.Skip.{skip_ws, skip_json_value, skip_byte}
use uidentity.Json.Strings.{parse_json_string, split_last}
use uidentity.Json.Extract.{between, extract_json_array}

-- `pos >= size - 1 || array[pos] == close`, at a position of the text.
unfoldable pub at_end : ℕ → Bytes → Bool
at_end close [] = true
at_end close (c ∷ []) = true
at_end close (c ∷ d ∷ s) = c == close

-- The loop on `pos`, from the position behind the opening bracket.
unfoldable pub split_elements : ℕ → ℕ → Bytes → Result (List Bytes)
split_elements fuel zero t = err Error.out_of_fuel
split_elements fuel (suc n) [] = ok []
split_elements fuel (suc n) (c ∷ []) = ok []
split_elements fuel (suc n) (c ∷ d ∷ s) = elim (at_end b']' (skip_ws (c ∷ d ∷ s))) [
  | true ↦ ok []
  | false ↦
      let pos = skip_ws (c ∷ d ∷ s) in
      skip_json_value fuel pos >>= λ end. elim (leb (length pos) (length end)) [
        | true ↦ ok []
        | false ↦ split_elements fuel n (skip_byte b',' (skip_ws end)) >>= λ rest.
            ok (between pos end ∷ rest)
      ]
]

unfoldable pub is_bracketed : Bytes → Bool
is_bracketed [] = false
is_bracketed (c ∷ s) = elim (split_last s) [
  | none ↦ false
  | some (inner, last) ↦ (c == b'[') && (last == b']')
]

abbrev pub tail_of : Bytes → Bytes
tail_of [] = []
tail_of (c ∷ s) = s

unfoldable pub split_json_array_elements : ℕ → Bytes → Result (List Bytes)
split_json_array_elements fuel array =
    if is_bracketed array then split_elements fuel fuel (tail_of array) else ok []

-- The elements that are strings.
unfoldable pub parsed_strings : List Bytes → List Bytes
parsed_strings [] = []
parsed_strings (e ∷ es) = elim (parse_json_string e) [
  | none ↦ parsed_strings es
  | some v ↦ v ∷ parsed_strings es
]

unfoldable pub extract_json_string_array : ℕ → Bytes → Bytes → Result (List Bytes)
extract_json_string_array fuel json key = do
  raw ← extract_json_array fuel json key
  elim raw [
    | none ↦ ok []
    | some array ↦ do elements ← split_json_array_elements fuel array; ok (parsed_strings elements)
  ]
