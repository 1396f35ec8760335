-- ===== src/Utils/UrlEncode/RoundTrip.antt =====
-- `url_decode` after `url_encode`, and the bytes that `url_encode` writes.
use mathlib.Core.Path.{subst}
use uidentity.Base.{
  ℕ, ◌+◌, ◌*◌, ◌/◌, ◌%◌, ◌<◌, ◌≤◌, ◌≡◌, refl, ◌⊎◌, ◌≢◌, ap, ◌∙◌, false, [], ◌∷◌, ◌++◌, some, Bytes,
  IsByte, All, All-append, Lacks, is_space, ◌==◌, arith,
}
use uidentity.Utils.UrlEncode.{
  two_digits, should_encode, hex_digit, encode_byte, url_encode, hex_value, read_hex, url_decode,
}

hex_value-hex_digit : (d : ℕ) → d < 16 → hex_value (hex_digit d) ≡ some d
unfolding hex_value hex_digit
hex_value-hex_digit d h = ground arith

hex_digit-plain :
    (d : ℕ)
    → d < 16
    → (is_space (hex_digit d) ≡ false)
      × ((hex_digit d == b'+') ≡ false)
      × ((hex_digit d == b'-') ≡ false)
unfolding hex_digit is_space
hex_digit-plain d h = ground arith

two_digits-hex_digit :
    (d e : ℕ) → d < 16 → e < 16 → two_digits (hex_digit d) (hex_digit e) ≡ some (d * 16 + e)
unfolding two_digits
two_digits-hex_digit d e hd he = ground (arith, hex_value-hex_digit d hd, hex_value-hex_digit e he)

read_hex-hex_digit :
    (d e : ℕ) → d < 16 → e < 16 → read_hex (hex_digit d) (hex_digit e) ≡ some (d * 16 + e)
unfolding read_hex
read_hex-hex_digit d e hd he =
    let (s, p, m) = hex_digit-plain d hd in rw (s, p, m, two_digits-hex_digit d e hd he)

decode_escape :
    (c : ℕ) (s : Bytes)
    → c < 256
    → url_decode (b'%' ∷ hex_digit (c / 16) ∷ hex_digit (c % 16) ∷ s) ≡ c ∷ url_decode s
unfolding url_decode
decode_escape c s h = ground (arith, read_hex-hex_digit (c / 16) (c % 16))

decode_plain : (c : ℕ) (s : Bytes) → c ≢ b'%' → url_decode (c ∷ s) ≡ c ∷ url_decode s
unfolding url_decode
decode_plain c [] h = refl
decode_plain c (a ∷ []) h = refl
decode_plain c (a ∷ b ∷ s) h = ground arith

decode-encode_byte :
    (c : ℕ) (s : Bytes) → c < 256 → url_decode (encode_byte c ++ s) ≡ c ∷ url_decode s
unfolding encode_byte should_encode
decode-encode_byte c s h = ground (arith, decode_escape c s, decode_plain c s)

-- `url_decode` gives back every string of bytes that `url_encode` wrote.
pub url_decode-url_encode : (s : Bytes) → All IsByte s → url_decode (url_encode s) ≡ s
unfolding url_encode
url_decode-url_encode [] _ = unfold url_decode in refl
url_decode-url_encode (c ∷ s) (hc, hs) =
    decode-encode_byte c (url_encode s) hc ∙ ap (λ r. c ∷ r) (url_decode-url_encode s hs)

-- RFC 3986: letters, digits, hyphen, period, underscore, tilde.
abbrev pub IsUnreserved : ℕ → Type 0
IsUnreserved c =
    (b'A' ≤ c) × (c ≤ b'Z')
    ⊎ (b'a' ≤ c) × (c ≤ b'z')
    ⊎ (b'0' ≤ c) × (c ≤ b'9')
    ⊎ (c ≡ b'-')
    ⊎ (c ≡ b'.')
    ⊎ (c ≡ b'_')
    ⊎ (c ≡ b'~')

abbrev pub IsUrlSafe : ℕ → Type 0
IsUrlSafe c = IsUnreserved c ⊎ (c ≡ b'%')

encode_byte-IsUrlSafe : (c : ℕ) → c < 256 → All IsUrlSafe (encode_byte c)
unfolding encode_byte should_encode hex_digit
encode_byte-IsUrlSafe c h = ground arith

-- Every byte of the output is unreserved or a percent sign.
pub url_encode-IsUrlSafe : (s : Bytes) → All IsByte s → All IsUrlSafe (url_encode s)
unfolding url_encode
url_encode-IsUrlSafe [] _ = tt
url_encode-IsUrlSafe (c ∷ s) (hc, hs) =
    All-append _ (encode_byte c) (url_encode s) (encode_byte-IsUrlSafe c hc)
      (url_encode-IsUrlSafe s hs)

pub IsUrlSafe-Lacks : (b : ℕ) (s : Bytes) → ¬ IsUrlSafe b → All IsUrlSafe s → Lacks b s
IsUrlSafe-Lacks b [] h _ = tt
IsUrlSafe-Lacks b (c ∷ s) h (hc, hs) = (λ e. h (subst IsUrlSafe e hc), IsUrlSafe-Lacks b s h hs)
