-- ===== src/Jwt/Base64RoundTrip.antt =====
-- base64url_decode against the alphabet and the grouping of RFC 4648.
use uidentity.Base.{
  ℕ, ◌+◌, ◌-◌, ◌*◌, ◌/◌, ◌%◌, ◌<◌, false, [], ◌∷◌, Option, some, Bytes, ltb, ◌==◌, if◌then◌else◌,
  ◌≡◌, refl, ◌∙◌, arith, All, IsByte, Lacks, ◌≢◌,
}
use uidentity.Jwt.Base64.{decode_base64url_char, shift_in, decode_bits, base64url_decode, cons_byte}

-- Table 2 of RFC 4648: the character of a six-bit value.
unfoldable pub base64url_char : ℕ → ℕ
base64url_char d =
    if ltb d 26
    then b'A' + d
    else if ltb d 52
    then b'a' + (d - 26)
    else if ltb d 62
    then b'0' + (d - 52)
    else if d == 62
    then b'-'
    else b'_'

-- Three bytes make four characters; a last group of one or two bytes makes two or three, unpadded.
unfoldable pub rfc4648_url : Bytes → Bytes
rfc4648_url [] = []
rfc4648_url (a ∷ []) = base64url_char (a / 4) ∷ base64url_char (a % 4 * 16) ∷ []
rfc4648_url (a ∷ b ∷ []) =
    base64url_char (a / 4) ∷ base64url_char (a % 4 * 16 + b / 16) ∷ base64url_char (b % 16 * 4) ∷ []
rfc4648_url (a ∷ b ∷ c ∷ s) =
    base64url_char (a / 4)
    ∷ base64url_char (a % 4 * 16 + b / 16)
    ∷ base64url_char (b % 16 * 4 + c / 64)
    ∷ base64url_char (c % 64)
    ∷ rfc4648_url s

decode-base64url_char : (d : ℕ) → d < 64 → decode_base64url_char (base64url_char d) ≡ some d
unfolding decode_base64url_char base64url_char
decode-base64url_char d h = ground arith

not_padding : (d : ℕ) → d < 64 → (base64url_char d == b'=') ≡ false
unfolding base64url_char
not_padding d h = ground arith

module _ (val d : ℕ) (s : Bytes) (small : d < 64) where
  -- One character, by the number of bits that wait.
  step_from_zero : decode_bits val 0 (base64url_char d ∷ s) ≡ decode_bits (shift_in val d) 6 s
  unfolding decode_bits
  step_from_zero = ground (arith, not_padding d small, decode-base64url_char d small)

  step_from_six :
      decode_bits val 6 (base64url_char d ∷ s)
      ≡ cons_byte ((shift_in val d / 16) % 256) (decode_bits (shift_in val d) 4 s)
  unfolding decode_bits
  step_from_six = ground (arith, not_padding d small, decode-base64url_char d small)

  step_from_four :
      decode_bits val 4 (base64url_char d ∷ s)
      ≡ cons_byte ((shift_in val d / 4) % 256) (decode_bits (shift_in val d) 2 s)
  unfolding decode_bits
  step_from_four = ground (arith, not_padding d small, decode-base64url_char d small)

  step_from_two :
      decode_bits val 2 (base64url_char d ∷ s)
      ≡ cons_byte (shift_in val d % 256) (decode_bits (shift_in val d) 0 s)
  unfolding decode_bits
  step_from_two = ground (arith, not_padding d small, decode-base64url_char d small)

-- The bytes that come out of a group, whatever bits lie above them.
first_byte :
    (val a d : ℕ)
    → a < 256
    → d < 64
    → d / 16 ≡ a % 4
    → shift_in (shift_in val (a / 4)) d / 16 % 256 ≡ a
unfolding shift_in
first_byte val a d ha hd e = omega arith

second_byte :
    (val b x d : ℕ)
    → b < 256
    → d < 64
    → x % 16 ≡ b / 16
    → d / 4 ≡ b % 16
    → shift_in (shift_in val x) d / 4 % 256 ≡ b
unfolding shift_in
second_byte val b x d hb hd e f = omega arith

third_byte : (val c x : ℕ) → c < 256 → x % 4 ≡ c / 64 → shift_in (shift_in val x) (c % 64) % 256 ≡ c
unfolding shift_in
third_byte val c x hc e = omega arith

cons_byte-eq :
    {b c : ℕ} {r : Option Bytes} {s : Bytes} → b ≡ c → r ≡ some s → cons_byte b r ≡ some (c ∷ s)
cons_byte-eq p q = rw (p, q)

decode_bits-nil : (val held : ℕ) → decode_bits val held [] ≡ some []
unfolding decode_bits
decode_bits-nil val held = refl

-- The decoder needs no reset of `val` between groups.
decode_bits-rfc4648 :
    (s : Bytes) (val : ℕ) → All IsByte s → decode_bits val 0 (rfc4648_url s) ≡ some s
unfolding rfc4648_url
decode_bits-rfc4648 [] val h = decode_bits-nil val 0
decode_bits-rfc4648 (a ∷ []) val (ha, _) =
    step_from_zero val (a / 4) _ (omega arith)
    ∙ step_from_six _ (a % 4 * 16) [] (omega arith)
    ∙ cons_byte-eq (first_byte val a _ ha (omega arith) (omega arith)) (decode_bits-nil _ 4)
decode_bits-rfc4648 (a ∷ b ∷ []) val (ha, (hb, _)) =
    step_from_zero val (a / 4) _ (omega arith)
    ∙ step_from_six _ (a % 4 * 16 + b / 16) _ (omega arith)
    ∙ cons_byte-eq (first_byte val a _ ha (omega arith) (omega arith)) (
        step_from_four _ (b % 16 * 4) [] (omega arith)
        ∙ cons_byte-eq
            (second_byte _ b (a % 4 * 16 + b / 16) _ hb (omega arith) (omega arith) (omega arith))
            (decode_bits-nil _ 2))
decode_bits-rfc4648 (a ∷ b ∷ c ∷ s) val (ha, (hb, (hc, hs))) =
    step_from_zero val (a / 4) _ (omega arith)
    ∙ step_from_six _ (a % 4 * 16 + b / 16) _ (omega arith)
    ∙ cons_byte-eq (first_byte val a _ ha (omega arith) (omega arith)) (
        step_from_four _ (b % 16 * 4 + c / 64) _ (omega arith)
        ∙ cons_byte-eq
            (second_byte _ b (a % 4 * 16 + b / 16) _ hb (omega arith) (omega arith) (omega arith))
            (step_from_two _ (c % 64) _ (omega arith)
              ∙ cons_byte-eq (third_byte _ c (b % 16 * 4 + c / 64) hc (omega arith))
                  (decode_bits-rfc4648 s _ hs)))

-- base64url_decode reads back every string of bytes from its unpadded RFC 4648 text.
pub base64url_decode-rfc4648_url :
    (s : Bytes) → All IsByte s → base64url_decode (rfc4648_url s) ≡ some s
unfolding base64url_decode
base64url_decode-rfc4648_url s = decode_bits-rfc4648 s 0

-- What holds of every character of the alphabet holds of all that the encoder writes.
rfc4648_url-All :
    (P : ℕ → Type 0)
    → ((d : ℕ) → d < 64 → P (base64url_char d))
    → (s : Bytes) → All IsByte s
    → All P (rfc4648_url s)
unfolding rfc4648_url
rfc4648_url-All P f [] h = tt
rfc4648_url-All P f (a ∷ []) (ha, _) = (f _ (omega arith), (f _ (omega arith), tt))
rfc4648_url-All P f (a ∷ b ∷ []) (ha, (hb, _)) =
    (f _ (omega arith), (f _ (omega arith), (f _ (omega arith), tt)))
rfc4648_url-All P f (a ∷ b ∷ c ∷ s) (ha, (hb, (hc, hs))) = (
  f _ (omega arith),
  (f _ (omega arith), (f _ (omega arith), (f _ (omega arith), rfc4648_url-All P f s hs))),
)

base64url_char-ne-dot : (d : ℕ) → d < 64 → base64url_char d ≢ b'.'
unfolding base64url_char
base64url_char-ne-dot d h = ground arith

base64url_char-IsByte : (d : ℕ) → d < 64 → IsByte (base64url_char d)
unfolding base64url_char
base64url_char-IsByte d h = ground arith

pub rfc4648_url-Lacks_dot : (s : Bytes) → All IsByte s → Lacks b'.' (rfc4648_url s)
rfc4648_url-Lacks_dot s h = rfc4648_url-All (λ c. c ≢ b'.') base64url_char-ne-dot s h

pub rfc4648_url-IsByte : (s : Bytes) → All IsByte s → All IsByte (rfc4648_url s)
rfc4648_url-IsByte s h = rfc4648_url-All IsByte base64url_char-IsByte s h
