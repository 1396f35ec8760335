-- ===== src/Json/Skip.antt =====
-- skip_ws, skip_json_string and skip_json_value of json_utils.hpp. A position is the suffix that it
-- starts, so a function that returns a position returns a suffix, and `text.size()` is `[]`.
use uidentity.Base.{
  ℕ, zero, suc, Bool, true, false, ◌||◌, [], ◌∷◌, Option, none, some, Bytes, is_space, ◌==◌,
  if◌then◌else◌, Result, ok, err, Error, ◌>>=◌, value_or,
}

unfoldable pub skip_ws : Bytes → Bytes
unfolding is_space
skip_ws [] = []
skip_ws (c ∷ s) = if is_space c then skip_ws s else c ∷ s

-- The loop of `skip_json_string`; the first argument is `escaped`.
unfoldable pub skip_string_body : Bool → Bytes → Bytes
skip_string_body escaped [] = []
skip_string_body true (c ∷ s) = skip_string_body false s
skip_string_body false (c ∷ s) =
    let after_escape = skip_string_body true s in
    let after_plain = skip_string_body false s in
    if c == b'\\' then after_escape else if c == b'"' then s else after_plain

unfoldable pub skip_json_string : Bytes → Bytes
skip_json_string [] = []
skip_json_string (c ∷ s) = if c == b'"' then skip_string_body false s else c ∷ s

-- `if (pos < text.size() && text[pos] == b) ++pos`, as a test and as a step.
unfoldable pub eat : ℕ → Bytes → Option Bytes
eat b [] = none
eat b (c ∷ s) = if c == b then some s else none

unfoldable pub skip_byte : ℕ → Bytes → Bytes
unfolding eat
skip_byte b t = value_or (eat b t) t

-- The loop over the last kind of value: up to a comma or a closing bracket.
unfoldable pub skip_scalar : Bytes → Bytes
skip_scalar [] = []
skip_scalar (c ∷ s) = if (c == b',') || (c == b'}') || (c == b']') then c ∷ s else skip_scalar s

-- From the start of a member to its value.
unfoldable pub skip_key : Bytes → Bytes
skip_key t = skip_byte b':' (skip_ws (skip_json_string t))

-- The `while` loops over members and over elements are one loop, with the closing bracket and with
-- what stands in front of a value. It takes the call of `skip_json_value` as an argument.
unfoldable pub skip_entries :
    (Bytes → Result Bytes) → ℕ → (Bytes → Bytes) → ℕ → Bytes → Result Bytes
skip_entries value close label zero t = err Error.out_of_fuel
skip_entries value close label (suc n) [] = ok []
skip_entries value close label (suc n) (c ∷ s) = elim (eat close (skip_ws (c ∷ s))) [
  | some rest ↦ ok rest
  | none ↦ value (label (skip_ws (c ∷ s))) >>= λ end. elim (eat b',' (skip_ws end)) [
    | some rest ↦ skip_entries value close label n rest
    | none ↦ elim (eat close (skip_ws end)) [
      | some rest ↦ ok rest
      | none ↦ skip_entries value close label n (skip_ws end)
    ]
  ]
]

unfoldable pub skip_json_value : ℕ → Bytes → Result Bytes
skip_json_value zero t = err Error.out_of_fuel
skip_json_value (suc fuel) t = elim (skip_ws t) [
  | [] ↦ ok []
  | c ∷ s ↦
      if c == b'"'
      then ok (skip_json_string (c ∷ s))
      else if c == b'{'
      then skip_entries (skip_json_value fuel) b'}' skip_key fuel s
      else if c == b'['
      then skip_entries (skip_json_value fuel) b']' (λ u. u) fuel s
      else ok (skip_scalar (c ∷ s))
]
