-- ===== src/Json/Strings.antt =====
-- parse_json_string, split_ws and append_unique of json_utils.hpp.
use uidentity.Base.{
  ℕ, Bool, true, false, ◌||◌, ◌&&◌, List, [], ◌∷◌, ◌++◌, Option, none, some, Bytes, eq_bytes,
  is_space, ◌==◌, if◌then◌else◌,
}

unfoldable pub split_last : Bytes → Option (Bytes × ℕ)
split_last [] = none
split_last (c ∷ s) = elim (split_last s) [
  | none ↦ some ([], c)
  | some (front, last) ↦ some (c ∷ front, last)
]

-- The `switch` on an escaped byte.
unfoldable pub unescape_byte : ℕ → ℕ
unescape_byte c =
    if c == b'b'
    then 8
    else if c == b'f'
    then 12
    else if c == b'n'
    then 10
    else if c == b'r'
    then 13
    else if c == b't'
    then 9
    else c

-- The loop over the bytes between the quotes; the first argument is `escaped`.
unfoldable pub unescape_body : Bool → Bytes → Bytes
unescape_body escaped [] = []
unescape_body true (c ∷ s) = unescape_byte c ∷ unescape_body false s
unescape_body false (c ∷ s) =
    let after_escape = unescape_body true s in
    let after_plain = unescape_body false s in if c == b'\\' then after_escape else c ∷ after_plain

unfoldable pub parse_json_string : Bytes → Option Bytes
parse_json_string [] = none
parse_json_string (c ∷ s) = elim (split_last s) [
  | none ↦ none
  | some (inner, last) ↦
      if (c == b'"') && (last == b'"') then some (unescape_body false inner) else none
]

-- `find_first_of(" \t\r\n")`
unfoldable pub is_separator : ℕ → Bool
is_separator c = (c == 32) || (c == 9) || (c == 13) || (c == 10)

-- The loop of `split_ws`: the flag tells that a token has begun, and `token` is what it has so far.
-- Between tokens `skip_ws` passes every space; inside one only a separator ends it.
unfoldable pub split_token : Bytes → Bytes → List Bytes
unfolding is_separator is_space
split_token [] [] = []
split_token [] (d ∷ token) = (d ∷ token) ∷ []
split_token (c ∷ s) [] = split_token s (if is_space c then [] else c ∷ [])
split_token (c ∷ s) (d ∷ token) =
    let ended = split_token s [] in
    let longer = split_token s (d ∷ (token ++ c ∷ [])) in
    if is_separator c then (d ∷ token) ∷ ended else longer

unfoldable pub split_ws : Bytes → List Bytes
split_ws s = split_token s []

unfoldable pub contains_string : List Bytes → Bytes → Bool
contains_string [] expected = false
contains_string (v ∷ vs) expected = eq_bytes v expected || contains_string vs expected

unfoldable pub append_unique : List Bytes → List Bytes → List Bytes
append_unique target [] = target
append_unique target (v ∷ vs) =
    append_unique (if contains_string target v then target else target ++ v ∷ []) vs
