-- ===== src/StateStore/Random.antt =====
-- random_state_32, which memory.cpp and redis.cpp both have. A draw of RAND_bytes is an argument:
-- sixteen bytes, or `none` where the call fails.
use uidentity.Base.{
  ℕ, suc, ◌*◌, ◌/◌, ◌%◌, ◌≤◌, [], ◌∷◌, Option, none, some, Bytes, codes, ◌≡◌, refl, ◌⊎◌, arith, All,
  length, get_or, Result, ok, err, Error,
}

abbrev hex_chars : Bytes
hex_chars = codes "0123456789abcdef"

-- `kHex[(byte >> 4) & 0x0F]`, `kHex[byte & 0x0F]`
unfoldable pub hex_pairs : Bytes → Bytes
hex_pairs [] = []
hex_pairs (b ∷ bs) = get_or hex_chars (b / 16 % 16) 0 ∷ get_or hex_chars (b % 16) 0 ∷ hex_pairs bs

unfoldable pub random_state_32 : Option Bytes → Result Bytes
random_state_32 none =
    err (Error.runtime_error (codes "RAND_bytes failed while generating OAuth state"))
random_state_32 (some bytes) = ok (hex_pairs bytes)

abbrev pub IsHexDigit : ℕ → Type 0
IsHexDigit c = (b'0' ≤ c) × (c ≤ b'9') ⊎ (b'a' ≤ c) × (c ≤ b'f')

hex_char-IsHexDigit : (d : ℕ) → suc d ≤ 16 → IsHexDigit (get_or hex_chars d 0)
hex_char-IsHexDigit d h = ground arith

hex_pairs-shape :
    (bs : Bytes) → (length (hex_pairs bs) ≡ 2 * length bs) × All IsHexDigit (hex_pairs bs)
unfolding hex_pairs
hex_pairs-shape [] = (refl, tt)
hex_pairs-shape (b ∷ bs) =
    let (n, h) = hex_pairs-shape bs in
    (omega arith, (hex_char-IsHexDigit _ (omega arith), (hex_char-IsHexDigit _ (omega arith), h)))

-- A state is 32 lower-case hexadecimal digits, whatever sixteen bytes were drawn.
pub random_state_32-shape :
    (bytes : Bytes) (state : Bytes)
    → length bytes ≡ 16
    → random_state_32 (some bytes) ≡ ok state
    → (length state ≡ 32) × All IsHexDigit state
unfolding random_state_32
random_state_32-shape bytes state n e =
    let written : state ≡ hex_pairs bytes = cc in
    let (twice, digits) = hex_pairs-shape bytes in rw written (omega arith, digits)
