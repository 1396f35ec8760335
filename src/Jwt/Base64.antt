-- ===== src/Jwt/Base64.antt =====
-- decode_base64url_char and base64url_decode of jwt_utils.hpp.
use uidentity.Base.{
  ℕ, ◌+◌, ◌-◌, ◌*◌, ◌/◌, ◌%◌, ◌^◌, true, false, ◌&&◌, [], ◌∷◌, Option, none, some, Bytes, leb, ◌==◌,
  if◌then◌else◌,
}

unfoldable pub decode_base64url_char : ℕ → Option ℕ
decode_base64url_char c =
    if leb b'A' c && leb c b'Z'
    then some (c - b'A')
    else if leb b'a' c && leb c b'z'
    then some (26 + c - b'a')
    else if leb b'0' c && leb c b'9'
    then some (52 + c - b'0')
    else if c == b'-'
    then some 62
    else if c == b'_'
    then some 63
    else none

-- `val = (val << 6) + decoded` in a 32-bit `int`, as its bit pattern. C++20 makes the shift wrap, and
-- the sum does not carry, since the low six bits are clear.
unfoldable pub shift_in : ℕ → ℕ → ℕ
shift_in val d = (val * 64 + d) % 2 ^ 32

abbrev pub cons_byte : ℕ → Option Bytes → Option Bytes
cons_byte b none = none
cons_byte b (some out) = some (b ∷ out)

-- The loop. `held` is the source's `valb + 8`, the number of bits that wait, so `valb >= 0` reads
-- `8 ≤ held`. `(val >> valb) & 0xFF` takes bits below the 14th, where the sign does not show.
unfoldable pub decode_bits : ℕ → ℕ → Bytes → Option Bytes
decode_bits val held [] = some []
decode_bits val held (c ∷ s) = elim (c == b'=') [
  | true ↦ some []
  | false ↦ elim (decode_base64url_char c) [
    | none ↦ none
    | some d ↦ elim (leb 8 (held + 6)) [
      | true ↦
          cons_byte ((shift_in val d / 2 ^ (held - 2)) % 256)
            (decode_bits (shift_in val d) (held - 2) s)
      | false ↦ decode_bits (shift_in val d) (held + 6) s
    ]
  ]
]

unfoldable pub base64url_decode : Bytes → Option Bytes
base64url_decode input = decode_bits 0 0 input
