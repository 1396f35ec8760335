-- ===== src/Pkce/Counted.antt =====
-- A library that keeps its promises: its bytes are all the same, and so are its hashes.
use uidentity.Base.{
  ℕ, zero, suc, true, [], ◌∷◌, some, Bytes, length, ◌≡◌, refl, sym, arith, All, IsByte,
}
use uidentity.Pkce.{Library}
use uidentity.Pkce.Shape.{KeepsPromises, rfc4648}

-- As many bytes as were asked for, all of them seven.
unfoldable pub counted : ℕ → Bytes
counted zero = []
counted (suc n) = 7 ∷ counted n

counted-length : (n : ℕ) → length (counted n) ≡ n
unfolding counted
counted-length zero = refl
counted-length (suc n) = ground (arith, counted-length n)

counted-IsByte : (n : ℕ) → All IsByte (counted n)
unfolding counted
counted-IsByte zero = tt
counted-IsByte (suc n) = (omega arith, counted-IsByte n)

abbrev pub some_library : Library
some_library = record {
  draw = λ n. some (counted n);
  context_ok = true;
  sha256 = λ input. some (255 ∷ 254 ∷ []);
  base64 = λ input. some (rfc4648 input);
}

abbrev hash_two : Bytes
hash_two = 255 ∷ 254 ∷ []

counted_bytes :
    (n : ℕ) (bytes : Bytes) → some (counted n) ≡ some bytes → (length bytes ≡ n) × All IsByte bytes
counted_bytes n bytes e =
    let same : counted n ≡ bytes = cc in rw (sym same) (counted-length n, counted-IsByte n)

hash-IsByte : (hash : Bytes) → some hash_two ≡ some hash → All IsByte hash
hash-IsByte hash e = let same : hash_two ≡ hash = cc in rw (sym same) (omega arith)

pub some_library-KeepsPromises : KeepsPromises some_library
some_library-KeepsPromises = record {
  draws = counted_bytes;
  hashes = λ input hash e. hash-IsByte hash e;
  encodes = λ input out e. cc;
}
