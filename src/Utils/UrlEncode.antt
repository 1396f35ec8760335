-- ===== src/Utils/UrlEncode.antt =====
-- include/uidentity/utils/url_encode.hpp. Bytes are numbers below 256.
pub mod RoundTrip
use uidentity.Base.{
  ℕ, ◌+◌, ◌-◌, ◌*◌, ◌/◌, ◌%◌, ◌≡◌, refl, Bool, true, false, not, ◌&&◌, ◌||◌, List, [], ◌∷◌, ◌++◌,
  Option, none, some, Bytes, codes, is_space, ltb, leb, ◌==◌, if◌then◌else◌,
}

unfoldable pub should_encode : ℕ → Bool
should_encode c = not (
    (leb b'A' c && leb c b'Z')
    || (leb b'a' c && leb c b'z')
    || (leb b'0' c && leb c b'9')
    || (c == b'-')
    || (c == b'_')
    || (c == b'.')
    || (c == b'~'))

-- A digit as `std::hex` prints it.
unfoldable pub hex_digit : ℕ → ℕ
hex_digit d = if ltb d 10 then b'0' + d else b'a' + d - 10

-- What one round of the loop writes: `'%' << std::setw(2) << int(c)` under `fill('0')` and
-- `std::hex`, or the byte as it is.
unfoldable pub encode_byte : ℕ → Bytes
encode_byte c =
    if should_encode c then b'%' ∷ hex_digit (c / 16) ∷ hex_digit (c % 16) ∷ [] else c ∷ []

unfoldable pub url_encode : Bytes → Bytes
url_encode [] = []
url_encode (c ∷ s) = encode_byte c ++ url_encode s

-- The value of a hexadecimal digit of either case.
unfoldable pub hex_value : ℕ → Option ℕ
hex_value c =
    if leb b'0' c && leb c b'9'
    then some (c - b'0')
    else if leb b'a' c && leb c b'f'
    then some (c - b'a' + 10)
    else if leb b'A' c && leb c b'F'
    then some (c - b'A' + 10)
    else none

is_x : ℕ → Bool
is_x c = (c == b'x') || (c == b'X')

-- Digits of the stream: the second is read if it is one, and `0x` alone is refused.
two_digits : ℕ → ℕ → Option ℕ
unfolding is_x hex_value
two_digits a b = elim (hex_value a) [
  | none ↦ none
  | some d ↦ elim (hex_value b) [
    | some e ↦ some (d * 16 + e)
    | none ↦ if (d == 0) && is_x b then none else some d
  ]
]

-- One digit behind a minus: the `int` is negative, and its cast to `char` wraps around.
minus_digit : ℕ → Option ℕ
unfolding hex_value
minus_digit b = elim (hex_value b) [ none ↦ none | some e ↦ some ((256 - e) % 256) ]

-- `std::istringstream(std::string{a, b}) >> std::hex >> ch`, with the cast to `char`: spaces in front
-- are skipped, and a sign is read.
unfoldable pub read_hex : ℕ → ℕ → Option ℕ
unfolding two_digits minus_digit is_space
read_hex a b =
    if is_space a
    then hex_value b
    else if a == b'+'
    then hex_value b
    else if a == b'-'
    then minus_digit b
    else two_digits a b

-- The loop over `i`: an escape takes three bytes where two more stand behind the `%`.
unfoldable pub url_decode : Bytes → Bytes
url_decode [] = []
url_decode (c ∷ []) = c ∷ []
url_decode (c ∷ a ∷ []) = c ∷ a ∷ []
url_decode (c ∷ a ∷ b ∷ s) =
    let skipped = url_decode s in
    let kept = url_decode (a ∷ b ∷ s) in
    if c == b'%'
    then (elim (read_hex a b) [ some ch ↦ ch ∷ skipped | none ↦ c ∷ kept ])
    else c ∷ kept
