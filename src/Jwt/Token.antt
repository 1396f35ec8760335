-- ===== src/Jwt/Token.antt =====
-- DecodedJwt and decode_jwt of jwt_utils.hpp.
use uidentity.Base.{
  ◌∷◌, ◌++◌, Option, none, some, Bytes, split_first, split_first-append, ◌≡◌, arith, All, IsByte,
}
use uidentity.Jwt.Base64.{base64url_decode}
use uidentity.Jwt.Base64RoundTrip.{rfc4648_url, base64url_decode-rfc4648_url, rfc4648_url-Lacks_dot}

pub record DecodedJwt : Type 0 where
  pub signing_input : Bytes
  pub header_json : Bytes
  pub payload_json : Bytes
  pub signature : Bytes

-- All three parts must decode.
unfoldable pub decode_parts : Bytes → Bytes → Bytes → Option DecodedJwt
decode_parts header payload signature = elim (base64url_decode header) [
  | none ↦ none
  | some h ↦ elim (base64url_decode payload) [
    | none ↦ none
    | some p ↦ elim (base64url_decode signature) [
      | none ↦ none
      | some s ↦ some (record {
        signing_input = header ++ b'.' ∷ payload;
        header_json = h;
        payload_json = p;
        signature = s;
      })
    ]
  ]
]

-- The first two dots cut the token. What is signed is the text up to the second.
unfoldable pub decode_jwt : Bytes → Option DecodedJwt
decode_jwt token =
    let (header, behind_header) = split_first b'.' token in
    elim behind_header [
      | none ↦ none
      | some rest ↦
          let (payload, behind_payload) = split_first b'.' rest in
          elim behind_payload [
            | none ↦ none
            | some signature ↦ decode_parts header payload signature
          ]
    ]

-- RFC 7515, section 7.1: the compact serialization.
abbrev pub compact : Bytes → Bytes → Bytes → Bytes
compact header payload signature =
    rfc4648_url header ++ b'.' ∷ (rfc4648_url payload ++ b'.' ∷ rfc4648_url signature)

decode_parts-rfc4648_url :
    (h p s : Bytes)
    → All IsByte h
    → All IsByte p
    → All IsByte s
    → decode_parts (rfc4648_url h) (rfc4648_url p) (rfc4648_url s)
      ≡ some (record {
        signing_input = rfc4648_url h ++ b'.' ∷ rfc4648_url p;
        header_json = h;
        payload_json = p;
        signature = s;
      })
unfolding decode_parts
decode_parts-rfc4648_url h p s hh hp hs = ground (
  arith,
  base64url_decode-rfc4648_url h hh,
  base64url_decode-rfc4648_url p hp,
  base64url_decode-rfc4648_url s hs,
)

-- decode_jwt gives back the header, the payload and the signature of a compact serialization, and the
-- text that the signature is over.
pub decode_jwt-compact :
    (h p s : Bytes)
    → All IsByte h
    → All IsByte p
    → All IsByte s
    → decode_jwt (compact h p s)
      ≡ some (record {
        signing_input = rfc4648_url h ++ b'.' ∷ rfc4648_url p;
        header_json = h;
        payload_json = p;
        signature = s;
      })
unfolding decode_jwt
decode_jwt-compact h p s hh hp hs = ground (
  arith,
  split_first-append b'.' (rfc4648_url h) (rfc4648_url p ++ b'.' ∷ rfc4648_url s)
      (rfc4648_url-Lacks_dot h hh),
  split_first-append b'.' (rfc4648_url p) (rfc4648_url s) (rfc4648_url-Lacks_dot p hp),
  decode_parts-rfc4648_url h p s hh hp hs,
)
