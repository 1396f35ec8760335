-- ===== src/Jwt/Signature.antt =====
-- evp_digest_for_alg, make_rsa_public_key and verify_rsa_signature of jwt_utils.hpp. OpenSSL is a
-- parameter: which of its calls succeed, and whether a signature verifies under a key.
use uidentity.Base.{
  Bool, true, false, not, ◌||◌, List, [], ◌∷◌, ◌++◌, Option, none, some, Bytes, codes, is_empty,
  eq_bytes, if◌then◌else◌,
}
use uidentity.Jwt.Base64.{base64url_decode}
use uidentity.Jwt.Keys.{Jwk}

pub data Digest : Type 0 where
  sha256 sha384 sha512 : Digest

-- `none` is the null pointer.
unfoldable pub evp_digest_for_alg : Bytes → Option Digest
evp_digest_for_alg alg =
    if eq_bytes alg (codes "RS256")
    then some sha256
    else if eq_bytes alg (codes "RS384")
    then some sha384
    else if eq_bytes alg (codes "RS512")
    then some sha512
    else none

-- What the calls that build a key return: a result that is not null, or one.
pub record Fates : Type 0 where
  pub n_ok : Bool
  pub e_ok : Bool
  pub rsa_ok : Bool
  pub set_ok : Bool
  pub pkey_ok : Bool
  pub assign_ok : Bool

-- An RSA public key is its modulus and its exponent. `digest_verify` stands for the calls of
-- EVP_DigestVerifyInit, -Update and -Final, all with result one.
pub record Openssl : Type 0 where
  pub fates : Bytes → Bytes → Fates
  pub context_ok : Bool
  pub digest_verify : Digest → Bytes × Bytes → Bytes → Bytes → Bool

pub data Handle : Type 0 where
  big_n big_e rsa pkey : Handle

-- A call that makes an object, one that frees it, or one that hands it over to another object.
pub data Call : Type 0 where
  acquire : Handle → Call
  release : Handle → Call
  transfer : Handle → Handle → Call

when : Bool → Call → List Call
when true c = c ∷ []
when false c = []

-- The calls of `make_rsa_public_key` behind the decoding, on each path, and whether a key comes out.
unfoldable pub build_key : Fates → List Call × Bool
unfolding when
build_key f =
    let made = when f.n_ok (acquire big_n) ++ when f.e_ok (acquire big_e) in
    let freed = when f.n_ok (release big_n) ++ when f.e_ok (release big_e) in
    let handed = transfer big_n rsa ∷ transfer big_e rsa ∷ [] in
    if not f.n_ok || not f.e_ok
    then (made ++ freed, false)
    else if not f.rsa_ok
    then (made ++ freed, false)
    else if not f.set_ok
    then (made ++ acquire rsa ∷ (freed ++ release rsa ∷ []), false)
    else if not f.pkey_ok
    then (made ++ acquire rsa ∷ (handed ++ release rsa ∷ []), false)
    else if not f.assign_ok
    then (made ++ acquire rsa ∷ (handed ++ acquire pkey ∷ release rsa ∷ release pkey ∷ []), false)
    else (made ++ acquire rsa ∷ (handed ++ acquire pkey ∷ transfer rsa pkey ∷ []), true)

module _ (ssl : Openssl) where
  key_of_bytes : Option Bytes → Option Bytes → Option (Bytes × Bytes)
  key_of_bytes none e = none
  key_of_bytes (some n) none = none
  key_of_bytes (some n) (some e) = if (build_key (ssl.fates n e)).1 then some (n, e) else none

  unfoldable pub make_rsa_public_key : Jwk → Option (Bytes × Bytes)
  unfolding key_of_bytes
  make_rsa_public_key jwk =
      if not (eq_bytes jwk.kty (codes "RSA")) || is_empty jwk.n || is_empty jwk.e
      then none
      else key_of_bytes (base64url_decode jwk.n) (base64url_decode jwk.e)

  unfoldable pub verify_rsa_signature : Jwk → Bytes → Bytes → Bytes → Bool
  verify_rsa_signature jwk alg signing_input signature = elim (evp_digest_for_alg alg) [
    | none ↦ false
    | some digest ↦ elim (make_rsa_public_key jwk) [
      | none ↦ false
      | some key ↦
          if ssl.context_ok then ssl.digest_verify digest key signing_input signature else false
    ]
  ]
