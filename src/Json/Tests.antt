-- ===== src/Json/Tests.antt =====
-- Runs of the JSON scanner, and the theorems about it at concrete inputs.
mod Values
use uidentity.Base.{
  [], ◌∷◌, none, some, ok, err, Error, codes, ◌≡◌, refl, arith, true, false, inl, inr, ◌++◌,
  find_after, is_space,
}
use uidentity.Base.{◌^◌, to_string, decimal}
use uidentity.Base.Int.{ℤ, pos, negsuc}
use uidentity.Json.Extract.{extract_json_int, extract_json_int64}
use uidentity.Json.Integers.Written.{fit}
use uidentity.Json.Skip.{skip_json_value}
use uidentity.Json.Strings.{parse_json_string, split_ws}
use uidentity.Json.Integers.{stoi}
use uidentity.Json.Extract.{extract_json_string, extract_json_bool}
use uidentity.Json.Arrays.{extract_json_string_array}
use uidentity.Json.Extract.{extract_json_value, quoted}
use uidentity.Json.Text.{
  Value, text, scalar, array, last, more, blank, IsBody, done, plain, IsJson, print,
}
use uidentity.Json.SkipPrint.{behind, skip_json_value-print}
use uidentity.Json.Rounds.{opening}
use uidentity.Json.Hang.{wrong_closing, skip_json_value_hangs, extract_json_value_hangs}
use uidentity.Json.Lookup.{
  raw_value, extract_json_value_found, extract_json_string_found, extract_json_bool_blank,
}
use uidentity.Json.Strings.{unescape_body}
use uidentity.Json.Running.{json_code}

skips_object : skip_json_value 40 (codes " {\"a\": [1, 2], \"b\":{}} , x") ≡ ok (codes " , x")
unfolding json_code
skips_object = refl

unescapes : parse_json_string (codes "\"a\\n\\\"\\u0041\"") ≡ some (codes "a\n\"u0041")
unfolding json_code
unescapes = refl

scopes :
    split_ws (codes " openid  profile\temail ")
    ≡ codes "openid" ∷ codes "profile" ∷ codes "email" ∷ []
unfolding json_code
scopes = refl

reads_number : stoi (codes " 300 ") ≡ some (pos 300)
unfolding json_code
reads_number = refl

refuses_large : stoi (codes "2147483648") ≡ none
unfolding json_code
refuses_large = refl

reads_audience :
    extract_json_string_array 99
      (codes "{\"iss\": \"a\", \"aud\" : [ \"x\", 3, \"y\" ]}")
      (codes "aud")
    ≡ ok (codes "x" ∷ codes "y" ∷ [])
unfolding json_code
reads_audience = refl

abbrev pub one_a : Value
one_a =
    array (more (blank []) (scalar (codes "1")) [] (last (blank (codes " ")) (text (codes "a")) []))

a_IsBody : IsBody (codes "a")
a_IsBody = plain 97 (omega arith) (omega arith) done

pub one_a-IsJson : IsJson one_a
unfolding is_space
one_a-IsJson =
    (tt, (refl, omega arith, omega arith, omega arith, omega arith), tt, ((refl, tt), a_IsBody, tt))

pub space : is_space 32 ≡ true
unfolding is_space
space = refl

number-IsScalar : IsJson (scalar (codes "17"))
unfolding is_space
number-IsScalar = (refl, omega arith, omega arith, omega arith, omega arith)

bool-IsScalar : IsJson (scalar (codes "true"))
unfolding is_space
bool-IsScalar = (refl, omega arith, omega arith, omega arith, omega arith)

hanging_found : find_after (quoted (codes "alg")) (codes "{\"alg\": [}") ≡ some (codes ": [}")
unfolding json_code
hanging_found = refl

number_found :
    find_after (quoted (codes "n")) (codes "{\"n\" : 17 ,\"m\":0}")
    ≡ some (codes " : " ++ (print (scalar (codes "17")) ++ codes " ,\"m\":0}"))
unfolding json_code print
number_found = refl

string_found :
    find_after (quoted (codes "n")) (codes "{\"n\":\"a\"}")
    ≡ some (b':' ∷ (print (text (codes "a")) ++ codes "}"))
unfolding json_code print
string_found = refl

bool_found :
    find_after (quoted (codes "active")) (codes "{\"active\": true }") ≡ some (codes ": true }")
unfolding json_code
bool_found = refl

skip_json_value-print_example :
    skip_json_value 20 (codes " " ++ (print one_a ++ (codes " " ++ codes ",x")))
    ≡ ok (behind one_a (codes " ") (codes ",x"))
skip_json_value-print_example =
    skip_json_value-print one_a 20 (codes " ") (codes " ") (codes ",x") one_a-IsJson (space, tt)
      (space, tt) (inl refl) (unfold print in omega arith)

extract_json_value_hangs_example :
    extract_json_value 500 (codes "{\"alg\": [}") (codes "alg") ≡ err Error.out_of_fuel
extract_json_value_hangs_example =
    extract_json_value_hangs false 500 (codes "alg") (codes "{\"alg\": [}") [] (codes " ") [] []
      hanging_found tt (space, tt) tt

extract_json_value_found_example :
    extract_json_value 99 (codes "{\"n\" : 17 ,\"m\":0}") (codes "n")
    ≡ ok (some (raw_value (scalar (codes "17")) (codes " ")))
extract_json_value_found_example =
    extract_json_value_found (scalar (codes "17")) 99 (codes "n") (codes "{\"n\" : 17 ,\"m\":0}")
      (codes " ") (codes " ") (codes " ") (codes ",\"m\":0}") number_found (omega arith)
      number-IsScalar (space, tt) (space, tt) (inl refl) (unfold print in omega arith)
