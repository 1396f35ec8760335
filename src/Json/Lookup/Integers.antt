-- ===== src/Json/Lookup/Integers.antt =====
-- extract_json_int and extract_json_int64 on members that hold integers.
use uidentity.Base.{
  ℕ, suc, ◌^◌, ◌≤◌, [], ◌∷◌, ◌++◌, some, Bytes, All, is_space, decimal, to_string, find_after,
  Lacks, length, ok, ◌≡◌, ◌≢◌, refl, ◌∙◌, ap, arith,
}
use uidentity.Base.Int.{ℤ, pos, negsuc}
use uidentity.Json.Integers.{stoi, stoll}
use uidentity.Json.Integers.Written.{
  IsDigit, InType, fit, decimal-IsDigit, decimal-ne-nil, stoi-to_string, stoll-to_string,
}
use uidentity.Json.Extract.{
  quoted, extract_json_value, map_value, extract_json_int, extract_json_int64,
}
use uidentity.Json.Text.{scalar, print, IsBlank, IsScalarByte, IsScalar, IsStop}
use uidentity.Json.Lookup.{extract_json_value_found}

digits-IsScalarByte : (s : Bytes) → All IsDigit s → All IsScalarByte s
digits-IsScalarByte [] h = tt
digits-IsScalarByte (c ∷ s) (d, h) =
    ((omega arith, omega arith, omega arith), digits-IsScalarByte s h)

digits-IsScalar : (s : Bytes) → s ≢ [] → All IsDigit s → IsScalar s
unfolding is_space
digits-IsScalar [] n h = absurd (n refl)
digits-IsScalar (c ∷ s) n (d, h) =
    (ground arith, omega arith, omega arith, omega arith, digits-IsScalarByte (c ∷ s) (d, h))

to_string-IsScalar : (z : ℤ) → IsScalar (to_string z)
unfolding to_string is_space
to_string-IsScalar (pos n) =
    digits-IsScalar (decimal 20 n) (decimal-ne-nil 19 n) (decimal-IsDigit 20 n)
to_string-IsScalar (negsuc n) = (
  refl,
  omega arith,
  omega arith,
  omega arith,
  (
    (omega arith, omega arith, omega arith),
    digits-IsScalarByte (decimal 20 (suc n)) (decimal-IsDigit 20 (suc n)),
  ),
)

module _ (z : ℤ) (fuel : ℕ) (name json m u w rest : Bytes)
    (found : find_after (quoted name) json ≡ some (m ++ b':' ∷ (u ++ (to_string z ++ (w ++ rest)))))
    (no_colon : Lacks b':' m) (blank_before : IsBlank u) (blank_behind : IsBlank w)
    (stops : IsStop rest) (enough : length (to_string z) ≤ fuel) where
  integer_found : extract_json_value fuel json name ≡ ok (some (to_string z ++ w))
  unfolding print
  integer_found =
      extract_json_value_found (scalar (to_string z)) fuel name json m u w rest found no_colon
        (to_string-IsScalar z) blank_before blank_behind stops enough

  -- If the first place where the quoted key stands is followed by a colon and the decimal text of an
  -- integer of at most nineteen digits, between spaces, then extract_json_int64 returns it where it fits
  -- into 64 bits and extract_json_int where it fits into 32, and else they return nothing.
  pub extract_json_int_found :
      InType (10 ^ 19) z
      → (extract_json_int64 fuel json name ≡ ok (fit (2 ^ 63) z))
        × (extract_json_int fuel json name ≡ ok (fit (2 ^ 31) z))
  unfolding extract_json_int extract_json_int64
  extract_json_int_found h = (
    ap (map_value stoll) integer_found ∙ ap ok (stoll-to_string z w h blank_behind),
    ap (map_value stoi) integer_found ∙ ap ok (stoi-to_string z w h blank_behind),
  )
