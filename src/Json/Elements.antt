-- ===== src/Json/Elements.antt =====
-- extract_json_string_array on well-formed arrays: it returns the strings among the elements.
use uidentity.Base.{
  ℕ, ◌≤◌, false, List, [], ◌∷◌, ◌++◌, none, some, Bytes, find_after, Lacks, length, ok, ◌≡◌, ◌≢◌,
  refl, ◌∙◌, ap, arith,
}
use uidentity.Json.Strings.{parse_json_string, unescape_body}
use uidentity.Json.Extract.{quoted, opened_by, map_value, extract_json_array}
use uidentity.Json.Arrays.{split_json_array_elements, parsed_strings, extract_json_string_array}
use uidentity.Json.Text.{
  Value, text, scalar, empty_object, object, empty_array, array, Entries, last, more, print,
  print_entries, IsBlank, IsJson, IsEntries, IsStop,
}
use uidentity.Json.Lookup.{raw_value, parse_json_string-print, extract_json_value_found}
use uidentity.Json.ElementsPrint.{elements, split_json_array_elements-print}

-- The strings among the elements, with their escapes undone.
abbrev pub add_string : Value → List Bytes → List Bytes
add_string (text s) rest = unescape_body false s ∷ rest
add_string (scalar s) rest = rest
add_string (empty_object w) rest = rest
add_string (object es) rest = rest
add_string (empty_array w) rest = rest
add_string (array es) rest = rest

abbrev pub strings : Entries → List Bytes
strings (last l v w) = add_string v []
strings (more l v w es) = add_string v (strings es)

not_quoted : (c : ℕ) (s : Bytes) → c ≢ b'"' → parse_json_string (c ∷ s) ≡ none
unfolding parse_json_string
not_quoted c s h = ground arith

parsed_strings-cons :
    (v : Value) (w : Bytes) (es : List Bytes)
    → IsJson v
    → parsed_strings (raw_value v w ∷ es) ≡ add_string v (parsed_strings es)
unfolding parsed_strings
parsed_strings-cons (text s) w es j = ground (arith, parse_json_string-print s)
parsed_strings-cons (scalar []) w es j = absurd j
parsed_strings-cons (scalar (c ∷ s)) w es j =
    unfold print in ground (arith, not_quoted c (s ++ w) j.1)
parsed_strings-cons (empty_object u) w es j =
    unfold print in ground (arith, not_quoted b'{' (u ++ b'}' ∷ []))
parsed_strings-cons (object e) w es j =
    unfold print in ground (arith, not_quoted b'{' (print_entries e ++ b'}' ∷ []))
parsed_strings-cons (empty_array u) w es j =
    unfold print in ground (arith, not_quoted b'[' (u ++ b']' ∷ []))
parsed_strings-cons (array e) w es j =
    unfold print in ground (arith, not_quoted b'[' (print_entries e ++ b']' ∷ []))

parsed_strings-elements :
    (es : Entries) → IsEntries false es → parsed_strings (elements es) ≡ strings es
parsed_strings-elements (last l v w) j =
    parsed_strings-cons v w [] j.1 ∙ ap (add_string v) (unfold parsed_strings in refl)
parsed_strings-elements (more l v w es) j =
    parsed_strings-cons v w (elements es) j.1 ∙ ap (add_string v) (parsed_strings-elements es j.3)

extracted :
    (fuel : ℕ) (json name raw : Bytes) (parts : List Bytes)
    → extract_json_array fuel json name ≡ ok (some raw)
    → split_json_array_elements fuel raw ≡ ok parts
    → extract_json_string_array fuel json name ≡ ok (parsed_strings parts)
unfolding extract_json_string_array
extracted fuel json name raw parts a s = ground (arith, a, s)

-- If the first place where the quoted key stands is followed by a colon and a well-formed array, then
-- extract_json_string_array returns the strings among its elements, in their order and with their escapes
-- undone, and leaves the other elements out.
pub extract_json_string_array_found :
    (es : Entries) (fuel : ℕ) (name json m u w rest : Bytes)
    → find_after (quoted name) json ≡ some (m ++ b':' ∷ (u ++ (print (array es) ++ (w ++ rest))))
    → Lacks b':' m
    → IsJson (array es)
    → IsBlank u
    → IsBlank w
    → IsStop rest
    → length (print (array es)) ≤ fuel
    → extract_json_string_array fuel json name ≡ ok (strings es)
extract_json_string_array_found es fuel name json m u w rest f l j hu hw k enough =
    let found =
      ap (map_value (opened_by b'['))
        (extract_json_value_found (array es) fuel name json m u w rest f l j hu hw k enough) in
    extracted fuel json name (print (array es)) (elements es)
      (unfold extract_json_array in found ∙ opens)
      (split_json_array_elements-print es fuel j enough)
    ∙ ap ok (parsed_strings-elements es j)
  where
    opens : ok (opened_by b'[' (print (array es))) ≡ ok (some (print (array es)))
    opens = unfold opened_by print in refl
