-- ===== src/Jwt/Ownership.antt =====
-- The OpenSSL objects that make_rsa_public_key holds.
use uidentity.Base.{Bool, true, false, List, [], ◌∷◌, Option, none, some, if◌then◌else◌, ◌≡◌, arith}
use uidentity.Jwt.Signature.{
  Fates, Handle, big_n, big_e, rsa, pkey, Call, acquire, release, transfer, build_key,
}

abbrev same : Handle → Handle → Bool
same big_n big_n = true
same big_e big_e = true
same rsa rsa = true
same pkey pkey = true
same _ _ = false

-- Takes an object off the list of those that are held.
abbrev pub let_go : Handle → List Handle → Option (List Handle)
let_go h [] = none
let_go h (k ∷ ks) =
    if same h k then some ks else (elim (let_go h ks) [ none ↦ none | some r ↦ some (k ∷ r) ])

-- The objects that the code holds after some calls; `none` if it frees or hands over one that it
-- does not hold.
abbrev pub held_after : List Call → List Handle → Option (List Handle)
held_after [] held = some held
held_after (acquire h ∷ cs) held = held_after cs (h ∷ held)
held_after (release h ∷ cs) held = elim (let_go h held) [ none ↦ none | some r ↦ held_after cs r ]
held_after (transfer h o ∷ cs) held = elim (let_go h held) [
  | none ↦ none
  | some r ↦ elim (let_go o r) [ none ↦ none | some r' ↦ held_after cs r ]
]

-- On every path of make_rsa_public_key nothing is freed twice or after it was handed over, and what
-- is held at the end is the key that is returned, or nothing.
pub build_key-owned :
    (f : Fates) → held_after (build_key f).0 [] ≡ some (if (build_key f).1 then pkey ∷ [] else [])
unfolding build_key
build_key-owned f = ground arith
