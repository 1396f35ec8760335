-- ===== src/Json/Tests/Values.antt =====
-- Integers, arrays and words at concrete inputs.
use uidentity.Base.{
  [], ◌∷◌, none, some, ok, codes, ◌≡◌, refl, arith, false, inl, inr, ◌++◌, find_after,
}
use uidentity.Base.{to_string, decimal}
use uidentity.Base.Int.{ℤ, negsuc}
use uidentity.Json.Extract.{extract_json_int, extract_json_int64}
use uidentity.Json.Lookup.Integers.{extract_json_int_found}
use uidentity.Json.Strings.{split_ws}
use uidentity.Json.Arrays.{extract_json_string_array}
use uidentity.Json.Extract.{quoted}
use uidentity.Json.Text.{text, scalar, last, more, blank, print}
use uidentity.Json.Strings.{unescape_body}
use uidentity.Json.Running.{json_code}
use uidentity.Json.Elements.{extract_json_string_array_found}
use uidentity.Json.Words.{words, split_ws-words}
use uidentity.Json.Tests.{one_a, one_a-IsJson, space}

-- It fits into 64 bits, and not into 32.
abbrev long : ℤ
long = negsuc 2147483648

long_found :
    find_after (quoted (codes "exp")) (codes "{\"exp\": -2147483649 ,\"m\":0}")
    ≡ some (codes ": " ++ (to_string long ++ codes " ,\"m\":0}"))
unfolding json_code to_string decimal
long_found = refl

extract_json_int_found_example :
    (extract_json_int64 20 (codes "{\"exp\": -2147483649 ,\"m\":0}") (codes "exp") ≡ ok (some long))
    × (extract_json_int 20 (codes "{\"exp\": -2147483649 ,\"m\":0}") (codes "exp") ≡ ok none)
extract_json_int_found_example =
    extract_json_int_found long 20 (codes "exp") (codes "{\"exp\": -2147483649 ,\"m\":0}") []
      (codes " ") (codes " ") (codes ",\"m\":0}") long_found tt (space, tt) (space, tt) (inl refl)
      (unfold to_string decimal in omega arith) (omega arith)

array_found :
    find_after (quoted (codes "aud")) (codes "{\"aud\":[1, \"a\"]}")
    ≡ some (b':' ∷ (print one_a ++ codes "}"))
unfolding json_code print
array_found = refl

extract_json_string_array_found_example :
    extract_json_string_array 20 (codes "{\"aud\":[1, \"a\"]}") (codes "aud")
    ≡ ok (unescape_body false (codes "a") ∷ [])
extract_json_string_array_found_example =
    extract_json_string_array_found
      (more (blank []) (scalar (codes "1")) [] (last (blank (codes " ")) (text (codes "a")) [])) 20
      (codes "aud") (codes "{\"aud\":[1, \"a\"]}") [] [] [] (codes "}") array_found tt one_a-IsJson
      tt tt (inr (inl refl)) (unfold print in omega arith)

split_ws-words_example : split_ws (codes " openid  profile\t") ≡ words (codes " openid  profile\t")
split_ws-words_example = split_ws-words (codes " openid  profile\t") (omega arith)
