-- ===== src/Json/Extract.antt =====
-- extract_json_value of json_utils.hpp and the readers of one value. `fuel` bounds each loop, and
-- the result is `err out_of_fuel` where one has not ended by then.
use uidentity.Base.{
  ℕ, zero, suc, ◌-◌, Bool, true, false, [], ◌∷◌, ◌++◌, Option, none, some, Bytes, codes, eq_bytes,
  find_after, split_first, length, take, ltb, ◌==◌, if◌then◌else◌, Result, ok, err, Error, ◌>>=◌,
}
use uidentity.Base.Int.{ℤ}
use uidentity.Json.Skip.{skip_ws, skip_json_value}
use uidentity.Json.Strings.{parse_json_string}
use uidentity.Json.Integers.{stoi, stoll}

abbrev pub quoted : Bytes → Bytes
quoted key = b'"' ∷ (key ++ b'"' ∷ [])

-- `json.substr(begin, end - begin)` for a position and a later one.
unfoldable pub between : Bytes → Bytes → Bytes
between begin end = take (length begin - length end) begin

-- The loop on `search_from`.
unfoldable pub search_value : ℕ → ℕ → Bytes → Bytes → Result (Option Bytes)
unfolding between
search_value fuel zero quoted_key json = err Error.out_of_fuel
search_value fuel (suc n) quoted_key [] = ok none
search_value fuel (suc n) quoted_key (c ∷ s) = elim (find_after quoted_key (c ∷ s)) [
  | none ↦ ok none
  | some rest ↦ elim ((split_first b':' rest).1) [
    | none ↦ ok none
    | some value ↦ skip_json_value fuel (skip_ws value) >>= λ end.
        elim (ltb (length end) (length (skip_ws value))) [
          | true ↦ ok (some (between (skip_ws value) end))
          | false ↦ search_value fuel n quoted_key rest
        ]
  ]
]

unfoldable pub extract_json_value : ℕ → Bytes → Bytes → Result (Option Bytes)
extract_json_value fuel json key = search_value fuel fuel (quoted key) json

-- What each reader makes of a raw value.
abbrev pub map_value {ℓ} :
    {A : Type ℓ} → (Bytes → Option A) → Result (Option Bytes) → Result (Option A)
map_value f (err e) = err e
map_value f (ok none) = ok none
map_value f (ok (some raw)) = ok (f raw)

unfoldable pub extract_json_string : ℕ → Bytes → Bytes → Result (Option Bytes)
extract_json_string fuel json key = map_value parse_json_string (extract_json_value fuel json key)

unfoldable pub extract_json_int : ℕ → Bytes → Bytes → Result (Option ℤ)
extract_json_int fuel json key = map_value stoi (extract_json_value fuel json key)

unfoldable pub extract_json_int64 : ℕ → Bytes → Bytes → Result (Option ℤ)
extract_json_int64 fuel json key = map_value stoll (extract_json_value fuel json key)

unfoldable pub read_bool : Bytes → Option Bool
read_bool raw =
    if eq_bytes raw (codes "true")
    then some true
    else if eq_bytes raw (codes "false")
    then some false
    else none

unfoldable pub extract_json_bool : ℕ → Bytes → Bytes → Result (Option Bool)
extract_json_bool fuel json key = map_value read_bool (extract_json_value fuel json key)

-- A raw value that starts with a bracket.
unfoldable pub opened_by : ℕ → Bytes → Option Bytes
opened_by b [] = none
opened_by b (c ∷ s) = if c == b then some (c ∷ s) else none

unfoldable pub extract_json_object : ℕ → Bytes → Bytes → Result (Option Bytes)
extract_json_object fuel json key = map_value (opened_by b'{') (extract_json_value fuel json key)

unfoldable pub extract_json_array : ℕ → Bytes → Bytes → Result (Option Bytes)
extract_json_array fuel json key = map_value (opened_by b'[') (extract_json_value fuel json key)
