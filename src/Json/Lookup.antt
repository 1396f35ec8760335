-- ===== src/Json/Lookup.antt =====
-- What extract_json_value and its readers return at the first place where the quoted key stands.
pub mod Integers
use uidentity.Base.{
  ℕ, zero, suc, ◌-◌, ◌≤◌, ◌<◌, true, false, [], ◌∷◌, ◌++◌, append_assoc, none, some, Bytes,
  is_space, All, ◌≡◌, refl, sym, ap, ◌∙◌, arith, ok, length, length-append, take-append, Lacks,
  find_after, strip, split_first, split_first-append, codes, eq_bytes,
}
use uidentity.Json.Skip.{skip_ws, skip_json_value}
use uidentity.Json.Strings.{parse_json_string, split_last, unescape_body}
use uidentity.Json.Extract.{
  quoted, between, search_value, extract_json_value, map_value, extract_json_string,
  extract_json_bool, read_bool,
}
use uidentity.Json.Text.{
  Value, text, scalar, empty_object, object, empty_array, array, print, IsBlank, IsJson, IsBody,
  IsStop,
}
use uidentity.Json.Steps.{skip_ws-append, skip_ws-solid, print-head}
use uidentity.Json.SkipPrint.{behind, skip_json_value-print}

-- The raw value that a printed one is read as: a scalar takes the spaces behind it along.
abbrev pub raw_value : Value → Bytes → Bytes
raw_value (text s) w = print (text s)
raw_value (scalar s) w = print (scalar s) ++ w
raw_value (empty_object w') w = print (empty_object w')
raw_value (object es) w = print (object es)
raw_value (empty_array w') w = print (empty_array w')
raw_value (array es) w = print (array es)

pub raw_value-behind :
    (v : Value) (w rest : Bytes) → print v ++ (w ++ rest) ≡ raw_value v w ++ behind v w rest
raw_value-behind (text s) w rest = refl
raw_value-behind (scalar s) w rest = sym (append_assoc _ w rest)
raw_value-behind (empty_object w') w rest = refl
raw_value-behind (object es) w rest = refl
raw_value-behind (empty_array w') w rest = refl
raw_value-behind (array es) w rest = refl

pub between-append : (s t : Bytes) → between (s ++ t) t ≡ s
unfolding between
between-append s t =
    let e : length (s ++ t) - length t ≡ length s = omega (arith, length-append s t) in
    rw e (take-append s t)

print-skip_ws :
    (v : Value) (w t : Bytes) → IsJson v → IsBlank w → skip_ws (w ++ (print v ++ t)) ≡ print v ++ t
print-skip_ws v w t j h =
    let (c, s, e, solid, _, _) = print-head v j in
    skip_ws-append w _ h ∙ rw e (skip_ws-solid c (s ++ t) solid)

pub length-raw_value : (v : Value) (w : Bytes) → IsJson v → 0 < length (raw_value v w)
unfolding print
length-raw_value (text s) w j = omega arith
length-raw_value (scalar []) w j = absurd j
length-raw_value (scalar (c ∷ s)) w j = omega arith
length-raw_value (empty_object w') w j = omega arith
length-raw_value (object es) w j = omega arith
length-raw_value (empty_array w') w j = omega arith
length-raw_value (array es) w j = omega arith

print-pos : (v : Value) → IsJson v → 0 < length (print v)
print-pos v j = let (c, s, e, _, _, _) = print-head v j in omega (arith, ap length e)

-- One round of the search that ends in a value.
search_value_step :
    (fuel n : ℕ) (k : ℕ) (key json rest value end : Bytes)
    → find_after (k ∷ key) json ≡ some rest
    → (split_first b':' rest).1 ≡ some value
    → skip_json_value fuel (skip_ws value) ≡ ok end
    → length end < length (skip_ws value)
    → search_value fuel (suc n) (k ∷ key) json ≡ ok (some (between (skip_ws value) end))
search_value_step fuel n k key [] rest value end f s v l = unfold find_after strip in cc f
search_value_step fuel n k key (c ∷ t) rest value end f s v l =
    unfold search_value in ground (arith, f, s, v, l)

module _ (v : Value) (fuel : ℕ) (name json m u w rest : Bytes)
    (found : find_after (quoted name) json ≡ some (m ++ b':' ∷ (u ++ (print v ++ (w ++ rest)))))
    (no_colon : Lacks b':' m) (well_formed : IsJson v) (blank_before : IsBlank u)
    (blank_behind : IsBlank w) (stops : IsStop rest) where
  at_value : skip_ws (u ++ (print v ++ (w ++ rest))) ≡ print v ++ (w ++ rest)
  at_value = print-skip_ws v u (w ++ rest) well_formed blank_before

  search_value_found :
      (n : ℕ)
      → length (print v) ≤ fuel
      → search_value fuel (suc n) (quoted name) json ≡ ok (some (raw_value v w))
  search_value_found n enough =
      let value = u ++ (print v ++ (w ++ rest)) in
      let parts : skip_ws value ≡ raw_value v w ++ behind v w rest =
        at_value ∙ raw_value-behind v w rest in
      search_value_step fuel n b'"' (name ++ b'"' ∷ []) json _ value (behind v w rest) found
        (ap (λ p. p.1) (split_first-append b':' m value no_colon))
        (rw at_value
          (skip_json_value-print v fuel [] w rest well_formed tt blank_behind stops enough))
        (omega (
          arith,
          ap length parts,
          length-append (raw_value v w) (behind v w rest),
          length-raw_value v w well_formed,
        ))
      ∙ ap (λ r. ok (some r)) (ap (λ t. between t (behind v w rest)) parts ∙ between-append _ _)

-- If the first place where the quoted key stands is followed by a colon and a well-formed value,
-- then that value is returned, with the spaces behind it where it is a scalar.
pub extract_json_value_found :
    (v : Value) (fuel : ℕ) (name json m u w rest : Bytes)
    → find_after (quoted name) json ≡ some (m ++ b':' ∷ (u ++ (print v ++ (w ++ rest))))
    → Lacks b':' m
    → IsJson v
    → IsBlank u
    → IsBlank w
    → IsStop rest
    → length (print v) ≤ fuel
    → extract_json_value fuel json name ≡ ok (some (raw_value v w))
unfolding extract_json_value
extract_json_value_found v zero name json m u w rest f c j hu hw k enough =
    absurd (omega (arith, print-pos v j))
extract_json_value_found v (suc n) name json m u w rest f c j hu hw k enough =
    search_value_found v (suc n) name json m u w rest f c j hu hw k n enough

pub split_last-append : (s : Bytes) (c : ℕ) → split_last (s ++ c ∷ []) ≡ some (s, c)
unfolding split_last
split_last-append [] c = refl
split_last-append (d ∷ s) c = rw (split_last-append s c)

-- A printed string is read as its body with the escapes undone.
pub parse_json_string-print :
    (s : Bytes) → parse_json_string (print (text s)) ≡ some (unescape_body false s)
unfolding parse_json_string print
parse_json_string-print s = rw (split_last-append s b'"', parse_json_string)

-- The same for extract_json_string and a string member: the body comes back with its escapes undone.
pub extract_json_string_found :
    (s : Bytes) (fuel : ℕ) (name json m u w rest : Bytes)
    → find_after (quoted name) json ≡ some (m ++ b':' ∷ (u ++ (print (text s) ++ (w ++ rest))))
    → Lacks b':' m
    → IsBody s
    → IsBlank u
    → IsBlank w
    → IsStop rest
    → length (print (text s)) ≤ fuel
    → extract_json_string fuel json name ≡ ok (some (unescape_body false s))
unfolding extract_json_string
extract_json_string_found s fuel name json m u w rest f c j hu hw k enough =
    ap (map_value parse_json_string)
      (extract_json_value_found (text s) fuel name json m u w rest f c j hu hw k enough)
    ∙ ap ok (parse_json_string-print s)

abbrev IsSolid : Bytes → Type 0
IsSolid = All (λ c. is_space c ≡ false)

blank-ne-solid :
    (s : Bytes) (c : ℕ) (w k : Bytes)
    → is_space c ≡ true
    → IsSolid k
    → eq_bytes (s ++ c ∷ w) k ≡ false
unfolding eq_bytes
blank-ne-solid [] c w [] h j = refl
blank-ne-solid [] c w (d ∷ k) h j = ground (arith, ap is_space {x = c} {y = d})
blank-ne-solid (d ∷ s) c w [] h j = refl
blank-ne-solid (d ∷ s) c w (e ∷ k) h j = ground (arith, blank-ne-solid s c w k h j.1)

true-IsSolid : IsSolid (codes "true")
unfolding is_space
true-IsSolid = (refl, (refl, (refl, (refl, tt))))

false-IsSolid : IsSolid (codes "false")
unfolding is_space
false-IsSolid = (refl, (refl, (refl, (refl, (refl, tt)))))

not_bool : (s : Bytes) (c : ℕ) (w : Bytes) → is_space c ≡ true → read_bool (s ++ c ∷ w) ≡ none
unfolding read_bool
not_bool s c w h = rw (
  blank-ne-solid s c w (codes "true") h (true-IsSolid),
  blank-ne-solid s c w (codes "false") h (false-IsSolid),
)

-- A literal with spaces behind it is no Boolean to extract_json_bool, whichever literal it is.
pub extract_json_bool_blank :
    (s : Bytes) (c fuel : ℕ) (name json m u w rest : Bytes)
    → find_after (quoted name) json ≡ some (m ++ b':' ∷ (u ++ (s ++ (c ∷ w ++ rest))))
    → Lacks b':' m
    → IsJson (scalar s)
    → IsBlank u
    → IsBlank (c ∷ w)
    → IsStop rest
    → length s ≤ fuel
    → extract_json_bool fuel json name ≡ ok none
unfolding extract_json_bool
extract_json_bool_blank s c fuel name json m u w rest f l j hu hw k enough =
    ap (map_value read_bool) (
      extract_json_value_found (scalar s) fuel name json m u (c ∷ w) rest (unfold print in f) l j hu
        hw k (unfold print in enough))
    ∙ ap ok (unfold print in not_bool s c w hw.0)
