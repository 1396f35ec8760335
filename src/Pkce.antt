-- ===== src/Pkce.antt =====
-- src/keycloak/pkce.cpp: PKCE pairs. The random bytes, the digest and the base64 filter of OpenSSL are
-- parameters; a null pointer, or a call that fails, is `none`.
pub mod Shape
pub mod Counted
mod Tests
use uidentity.Base.{
  ℕ, zero, suc, ◌+◌, ◌%◌, Bool, true, false, List, [], ◌∷◌, ◌++◌, Option, none, some, Bytes, codes,
  is_empty, get_or, length, map, ltb, ◌==◌, if◌then◌else◌, Result, ok, err, Error, ◌>>=◌,
}

pub record PkcePair : Type 0 where
  pub code_verifier : Bytes
  pub code_challenge : Bytes

-- `RAND_bytes` for a number of bytes, whether `EVP_MD_CTX_new` succeeds, SHA-256 (`none` where one of its
-- three calls fails), and what BIO_f_base64 without newlines writes.
pub record Library : Type 0 where
  pub draw : ℕ → Option Bytes
  pub context_ok : Bool
  pub sha256 : Bytes → Option Bytes
  pub base64 : Bytes → Option Bytes

abbrev pub charset : Bytes
charset = codes "ABCDEFGHIJKLMNOPQRSTUVWXYZabcdefghijklmnopqrstuvwxyz0123456789-._~"

unfoldable pub pick : ℕ → ℕ
pick byte = get_or charset (byte % 66) 0

unfoldable pub generate_random_string : Library → ℕ → Result Bytes
generate_random_string library n = elim (library.draw n) [
  | none ↦ err (Error.runtime_error (codes "RAND_bytes failed"))
  | some bytes ↦ ok (map pick bytes)
]

unfoldable pub sha256_raw : Library → Bytes → Result Bytes
sha256_raw library input = elim library.context_ok [
  | false ↦ err (Error.runtime_error (codes "EVP_MD_CTX_new failed"))
  | true ↦ elim (library.sha256 input) [
    | none ↦ err (Error.runtime_error (codes "SHA256 digest failed"))
    | some hash ↦ ok hash
  ]
]

-- The two calls of `std::replace`.
unfoldable pub to_url_char : ℕ → ℕ
to_url_char c = if c == b'+' then b'-' else if c == b'/' then b'_' else c

-- `while (!out.empty() && out.back() == '=') out.pop_back()`
unfoldable pub drop_padding : Bytes → Bytes
drop_padding [] = []
drop_padding (c ∷ s) =
    let rest = drop_padding s in
    if is_empty rest then (if c == b'=' then [] else c ∷ []) else c ∷ rest

unfoldable pub base64url_encode : Library → Bytes → Result Bytes
base64url_encode library input = elim (library.base64 input) [
  | none ↦ err (Error.runtime_error (codes "BIO_new failed"))
  | some out ↦ ok (drop_padding (map to_url_char out))
]

-- RFC 7636: 43..128
unfoldable pub clamp : ℕ → ℕ
clamp verifier_len =
    let at_least = if ltb verifier_len 43 then 43 else verifier_len in
    if ltb 128 at_least then 128 else at_least

unfoldable pub generate_pkce_pair : Library → ℕ → Result PkcePair
generate_pkce_pair library verifier_len = do
  verifier ← generate_random_string library (clamp verifier_len)
  hash ← sha256_raw library verifier
  challenge ← base64url_encode library hash
  ok (record { code_verifier = verifier; code_challenge = challenge })
