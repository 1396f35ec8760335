-- ===== src/Json/Integers.antt =====
-- `std::stoi` and `std::stoll`, as extract_json_int and extract_json_int64 of json_utils.hpp use them.
pub mod Written
use uidentity.Base.{
  ℕ, zero, suc, ◌+◌, ◌-◌, ◌*◌, ◌^◌, Bool, true, false, not, ◌&&◌, ◌||◌, Result, ok, err, Error,
  has_value, [], ◌∷◌, Option, none, some, Bytes, ltb, leb, ◌==◌, if◌then◌else◌, codes,
}
use uidentity.Base.Int.{ℤ, pos, negsuc}
use uidentity.Json.Skip.{skip_ws}

unfoldable pub is_digit : ℕ → Bool
is_digit c = leb b'0' c && leb c b'9'

-- The number that the digits at the front spell, behind `n`.
unfoldable pub read_digits : ℕ → Bytes → ℕ
unfolding is_digit
read_digits n [] = n
read_digits n (c ∷ s) =
    let more = read_digits (n * 10 + (c - b'0')) s in if is_digit c then more else n

unfoldable pub read_natural : Bytes → Option ℕ
unfolding read_digits is_digit
read_natural [] = none
read_natural (c ∷ s) = if is_digit c then some (read_digits 0 (c ∷ s)) else none

-- A value of a signed type with `m` values from zero up; `none` is `std::out_of_range`.
unfoldable pub in_range : ℕ → Bool → ℕ → Option ℤ
in_range m false n = if ltb n m then some (pos n) else none
in_range m true zero = some (pos zero)
in_range m true (suc n) = if ltb n m then some (negsuc n) else none

unfoldable pub signed_natural : ℕ → Bool → Option ℕ → Option ℤ
unfolding in_range
signed_natural m minus none = none
signed_natural m minus (some n) = in_range m minus n

-- The sign, then the digits. Text behind the digits is left alone.
unfoldable pub read_signed : ℕ → Bytes → Option ℤ
unfolding signed_natural read_natural
read_signed m [] = none
read_signed m (c ∷ s) =
    if c == b'-'
    then signed_natural m true (read_natural s)
    else if c == b'+'
    then signed_natural m false (read_natural s)
    else signed_natural m false (read_natural (c ∷ s))

-- `none` is either exception, which the callers catch alike.
unfoldable pub stoi : Bytes → Option ℤ
stoi raw = read_signed (2 ^ 31) (skip_ws raw)

unfoldable pub stoll : Bytes → Option ℤ
stoll raw = read_signed (2 ^ 63) (skip_ws raw)

-- Whether a conversion fails for want of a digit, and not for its range.
unfoldable pub lacks_digits : Bytes → Bool
unfolding read_natural
lacks_digits [] = true
lacks_digits (c ∷ s) =
    if (c == b'-') || (c == b'+')
    then not (has_value (read_natural s))
    else not (has_value (read_natural (c ∷ s)))

-- `std::stoi` where its exceptions are not caught.
unfoldable pub stoi_or_throw : Bytes → Result ℤ
stoi_or_throw raw = elim (stoi raw) [
  | some z ↦ ok z
  | none ↦ err (
      if lacks_digits (skip_ws raw)
      then Error.invalid_argument (codes "stoi")
      else Error.out_of_range)
]
