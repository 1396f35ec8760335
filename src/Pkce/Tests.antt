-- ===== src/Pkce/Tests.antt =====
-- The theorem about PKCE pairs over it.
use uidentity.Base.{codes, ok, ◌≡◌, refl}
use uidentity.Pkce.{
  PkcePair, pick, generate_random_string, sha256_raw, to_url_char, drop_padding, base64url_encode,
  clamp, generate_pkce_pair,
}
use uidentity.Pkce.Counted.{counted, some_library, some_library-KeepsPromises}
use uidentity.Pkce.Shape.{GoodPair, rfc4648, generate_pkce_pair-GoodPair}

abbrev some_pair : PkcePair
some_pair = record {
  code_verifier = codes "HHHHHHHHHHHHHHHHHHHHHHHHHHHHHHHHHHHHHHHHHHH";
  code_challenge = codes "__4";
}

pair_made : generate_pkce_pair some_library 5 ≡ ok some_pair
unfolding pick counted generate_pkce_pair generate_random_string sha256_raw base64url_encode clamp
    rfc4648 drop_padding to_url_char
pair_made = refl

generate_pkce_pair-GoodPair_example : GoodPair some_library 5 some_pair
generate_pkce_pair-GoodPair_example =
    generate_pkce_pair-GoodPair some_library 5 some_pair some_library-KeepsPromises pair_made
