-- ===== src/Pkce/Shape.antt =====
-- The form of a PKCE pair, as RFC 7636 asks for it.
use uidentity.Base.{
  ℕ, ◌+◌, ◌-◌, ◌%◌, ◌/◌, ◌*◌, ◌≤◌, ◌<◌, [], ◌∷◌, Option, none, some, Bytes, length, map, ltb, ◌==◌,
  if◌then◌else◌, ok, ok_inv, ◌≡◌, ◌≢◌, refl, ◌∙◌, sym, ap, arith, All, IsByte,
}
use uidentity.Jwt.Base64RoundTrip.{rfc4648_url, base64url_char}
use uidentity.Utils.UrlEncode.RoundTrip.{IsUnreserved}
use uidentity.Pkce.{
  PkcePair, Library, pick, generate_random_string, sha256_raw, to_url_char, drop_padding,
  base64url_encode, clamp, generate_pkce_pair,
}

-- RFC 4648, section 4: the character of a six-bit value.
abbrev pub base64_char : ℕ → ℕ
base64_char d =
    if ltb d 26
    then b'A' + d
    else if ltb d 52
    then b'a' + (d - 26)
    else if ltb d 62
    then b'0' + (d - 52)
    else if d == 62
    then b'+'
    else b'/'

-- RFC 4648, section 4: the encoding with padding.
unfoldable pub rfc4648 : Bytes → Bytes
rfc4648 [] = []
rfc4648 (a ∷ []) = base64_char (a / 4) ∷ base64_char (a % 4 * 16) ∷ b'=' ∷ b'=' ∷ []
rfc4648 (a ∷ b ∷ []) =
    base64_char (a / 4) ∷ base64_char (a % 4 * 16 + b / 16) ∷ base64_char (b % 16 * 4) ∷ b'=' ∷ []
rfc4648 (a ∷ b ∷ c ∷ s) =
    base64_char (a / 4)
    ∷ base64_char (a % 4 * 16 + b / 16)
    ∷ base64_char (b % 16 * 4 + c / 64)
    ∷ base64_char (c % 64)
    ∷ rfc4648 s

-- What the code relies on, by the documentation of RAND_bytes and of BIO_f_base64 with
-- BIO_FLAGS_BASE64_NO_NL.
pub record KeepsPromises (library : Library) : Type 0 where
  pub draws :
      (n : ℕ) (bytes : Bytes) → library.draw n ≡ some bytes → (length bytes ≡ n) × All IsByte bytes
  pub hashes : (input hash : Bytes) → library.sha256 input ≡ some hash → All IsByte hash
  pub encodes : (input out : Bytes) → library.base64 input ≡ some out → out ≡ rfc4648 input

pick-IsUnreserved : (byte : ℕ) → byte < 256 → IsUnreserved (pick byte)
unfolding pick
pick-IsUnreserved byte h = ground arith

map-pick :
    (bytes : Bytes)
    → All IsByte bytes
    → (length (map pick bytes) ≡ length bytes) × All IsUnreserved (map pick bytes)
map-pick [] h = (refl, tt)
map-pick (b ∷ bytes) (hb, hs) =
    let (n, u) = map-pick bytes hs in (omega arith, (pick-IsUnreserved b hb, u))

drop_padding_cons : (c : ℕ) (s : Bytes) → c ≢ b'=' → drop_padding (c ∷ s) ≡ c ∷ drop_padding s
unfolding drop_padding
drop_padding_cons c s h = ground arith

to_url_char-base64_char : (d : ℕ) → d < 64 → to_url_char (base64_char d) ≡ base64url_char d
unfolding to_url_char base64url_char
to_url_char-base64_char d h = ground arith

base64url_char-ne : (d : ℕ) → d < 64 → base64url_char d ≢ b'='
unfolding base64url_char
base64url_char-ne d h = ground arith

-- One character of the encoding.
written :
    (d : ℕ) (s : Bytes)
    → d < 64
    → drop_padding (to_url_char (base64_char d) ∷ s) ≡ base64url_char d ∷ drop_padding s
written d s h =
    ap (λ c. drop_padding (c ∷ s)) (to_url_char-base64_char d h)
    ∙ drop_padding_cons (base64url_char d) s (base64url_char-ne d h)

padding_dropped : drop_padding (b'=' ∷ b'=' ∷ []) ≡ []
unfolding drop_padding
padding_dropped = refl

one_dropped : drop_padding (b'=' ∷ []) ≡ []
unfolding drop_padding
one_dropped = refl

pub url_form :
    (s : Bytes) → All IsByte s → drop_padding (map to_url_char (rfc4648 s)) ≡ rfc4648_url s
unfolding rfc4648 rfc4648_url
url_form [] h = unfold drop_padding in refl
url_form (a ∷ []) (ha, _) =
    written (a / 4) _ (omega arith)
    ∙ ap (λ s. base64url_char (a / 4) ∷ s)
        (written (a % 4 * 16) _ (omega arith)
          ∙ ap (λ s. base64url_char (a % 4 * 16) ∷ s) (unfold to_url_char in padding_dropped))
url_form (a ∷ b ∷ []) (ha, (hb, _)) =
    written (a / 4) _ (omega arith)
    ∙ ap (λ s. base64url_char (a / 4) ∷ s)
        (written (a % 4 * 16 + b / 16) _ (omega arith)
          ∙ ap (λ s. base64url_char (a % 4 * 16 + b / 16) ∷ s)
              (written (b % 16 * 4) _ (omega arith)
                ∙ ap (λ s. base64url_char (b % 16 * 4) ∷ s) (unfold to_url_char in one_dropped)))
url_form (a ∷ b ∷ c ∷ s) (ha, (hb, (hc, hs))) =
    written (a / 4) _ (omega arith)
    ∙ ap (λ s. base64url_char (a / 4) ∷ s)
        (written (a % 4 * 16 + b / 16) _ (omega arith)
          ∙ ap (λ s. base64url_char (a % 4 * 16 + b / 16) ∷ s)
              (written (b % 16 * 4 + c / 64) _ (omega arith)
                ∙ ap (λ s. base64url_char (b % 16 * 4 + c / 64) ∷ s)
                    (written (c % 64) _ (omega arith)
                      ∙ ap (λ s. base64url_char (c % 64) ∷ s) (url_form s hs))))

clamp_bounds : (n : ℕ) → (43 ≤ clamp n) × (clamp n ≤ 128)
unfolding clamp
clamp_bounds n = ground arith

-- What a pair is for a library that keeps its promises.
pub record GoodPair (library : Library) (verifier_len : ℕ) (pair : PkcePair) : Type 0 where
  pub bounds : (43 ≤ length pair.code_verifier) × (length pair.code_verifier ≤ 128)
  pub asked : 43 ≤ verifier_len → verifier_len ≤ 128 → length pair.code_verifier ≡ verifier_len
  pub letters : All IsUnreserved pair.code_verifier
  pub challenge :
      (hash : Bytes) × (library.sha256 pair.code_verifier ≡ some hash)
      × (pair.code_challenge ≡ rfc4648_url hash)

drawn :
    (library : Library) (n : ℕ) (o : Option Bytes) (verifier : Bytes)
    → KeepsPromises library
    → library.draw n ≡ o
    → generate_random_string library n ≡ ok verifier
    → (length verifier ≡ n) × All IsUnreserved verifier
unfolding generate_random_string
drawn library n none verifier k e h = ground arith
drawn library n (some bytes) verifier k e h =
    let (same, small) = k.draws n bytes e in
    let (kept, letters) = map-pick bytes small in
    let given : map pick bytes ≡ verifier = ground arith in rw (sym given) (kept ∙ same, letters)

hashed :
    (library : Library) (input hash : Bytes)
    → sha256_raw library input ≡ ok hash
    → library.sha256 input ≡ some hash
unfolding sha256_raw
hashed library input hash h = ground arith

encoded :
    (library : Library) (o : Option Bytes) (input out : Bytes)
    → KeepsPromises library
    → library.base64 input ≡ o
    → base64url_encode library input ≡ ok out
    → All IsByte input
    → out ≡ rfc4648_url input
unfolding base64url_encode
encoded library none input out k e h small = ground arith
encoded library (some text) input out k e h small =
    let given : drop_padding (map to_url_char text) ≡ out = ground arith in
    sym given
    ∙ ap (λ t. drop_padding (map to_url_char t)) (k.encodes input text e)
    ∙ url_form input small

clamp_between : (n : ℕ) → 43 ≤ n → n ≤ 128 → clamp n ≡ n
unfolding clamp
clamp_between n l u = ground arith

-- Where OpenSSL keeps what it promises, a verifier has 43 to 128 unreserved characters, as many as were
-- asked for if that is in the range, and the challenge is the unpadded base64url text of its SHA-256 hash.
pub generate_pkce_pair-GoodPair :
    (library : Library) (verifier_len : ℕ) (pair : PkcePair)
    → KeepsPromises library
    → generate_pkce_pair library verifier_len ≡ ok pair
    → GoodPair library verifier_len pair
unfolding generate_pkce_pair
generate_pkce_pair-GoodPair library n pair k h =
    let (v, h₁, ev) = ok_inv (generate_random_string library (clamp n)) _ h in
    let (hash, h₂, eh) = ok_inv (sha256_raw library v) _ h₁ in
    let (c, h₃, ec) = ok_inv (base64url_encode library hash) _ h₂ in
    let (len, letters) = drawn library (clamp n) _ v k refl ev in
    let (low, high) = clamp_bounds n in
    let digest = hashed library v hash eh in
    let same_v : v ≡ pair.code_verifier = cc in
    let same_c : c ≡ pair.code_challenge = cc in
    rw (sym same_v, sym same_c)
      (record {
        bounds = (omega arith, omega arith);
        asked = λ l u. len ∙ clamp_between n l u;
        letters = letters;
        challenge = (hash, digest, encoded library _ hash c k refl ec (k.hashes v hash digest));
      })
