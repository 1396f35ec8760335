-- ===== src/StateStore/Redis/Codec.antt =====
-- encode_state_entry and decode_state_entry of redis.cpp.
use uidentity.Base.{
  false, List, [], ◌∷◌, ◌++◌, Option, none, some, Bytes, codes, is_empty, eq_bytes, split_first,
  split_on, split_on-append, split_on-Lacks, if◌then◌else◌, ◌≡◌, ◌≢◌, refl, ◌∙◌, ap, arith, All,
  All-append, IsByte, Lacks,
}
use uidentity.Utils.UrlEncode.{url_encode, url_decode}
use uidentity.Utils.UrlEncode.RoundTrip.{
  url_decode-url_encode, url_encode-IsUrlSafe, IsUrlSafe-Lacks,
}
use uidentity.StateStore.Entry.{StateEntry}

unfoldable pub encode_state_entry : StateEntry → Bytes
encode_state_entry entry =
    codes "verifier="
    ++ (url_encode entry.code_verifier ++ (codes "&realm=" ++ url_encode entry.realm))

abbrev decoded_value : Option Bytes → Bytes
decoded_value none = []
decoded_value (some v) = url_decode v

-- What one part between the ampersands does to the entry.
unfoldable pub read_field : Bytes → StateEntry → StateEntry
read_field [] entry = entry
read_field (c ∷ s) entry =
    let (name, behind) = split_first b'=' (c ∷ s) in
    let key = url_decode name in
    let value = decoded_value behind in
    if eq_bytes key (codes "verifier")
    then record entry { code_verifier = value }
    else if eq_bytes key (codes "realm")
    then record entry { realm = value }
    else entry

unfoldable pub read_fields : List Bytes → StateEntry → StateEntry
read_fields [] entry = entry
read_fields (p ∷ ps) entry = read_fields ps (read_field p entry)

unfoldable pub decode_state_entry : Bytes → Option StateEntry
decode_state_entry raw =
    let entry = read_fields (split_on b'&' raw) (record { code_verifier = []; realm = [] }) in
    if is_empty entry.code_verifier then none else some entry

url_encode-Lacks_ampersand : (s : Bytes) → All IsByte s → Lacks b'&' (url_encode s)
url_encode-Lacks_ampersand s h =
    IsUrlSafe-Lacks b'&' (url_encode s) (λ u. ground arith) (url_encode-IsUrlSafe s h)

read_verifier :
    (v : Bytes) (entry : StateEntry)
    → All IsByte v
    → read_field (codes "verifier=" ++ url_encode v) entry ≡ record entry { code_verifier = v }
unfolding read_field split_first url_decode eq_bytes
read_verifier v entry h =
    ap (λ x. let e : StateEntry = record entry { code_verifier = x } in e)
      (url_decode-url_encode v h)

read_realm :
    (r : Bytes) (entry : StateEntry)
    → All IsByte r
    → read_field (codes "realm=" ++ url_encode r) entry ≡ record entry { realm = r }
unfolding read_field split_first url_decode eq_bytes
read_realm r entry h =
    ap (λ x. let e : StateEntry = record entry { realm = x } in e) (url_decode-url_encode r h)

not_empty : (v : Bytes) → v ≢ [] → is_empty v ≡ false
not_empty [] h = absurd (h refl)
not_empty (c ∷ v) h = refl

split_fields :
    (v r : Bytes)
    → All IsByte v
    → All IsByte r
    → split_on b'&' (codes "verifier=" ++ (url_encode v ++ (codes "&realm=" ++ url_encode r)))
      ≡ (codes "verifier=" ++ url_encode v) ∷ (codes "realm=" ++ url_encode r) ∷ []
split_fields v r hv hr =
    split_on-append b'&' (codes "verifier=" ++ url_encode v) (codes "realm=" ++ url_encode r) (
      All-append _ (codes "verifier=") (url_encode v) (omega arith)
        (url_encode-Lacks_ampersand v hv))
    ∙ ap (λ ps. (codes "verifier=" ++ url_encode v) ∷ ps)
        (split_on-Lacks b'&' (codes "realm=" ++ url_encode r) (
          All-append _ (codes "realm=") (url_encode r) (omega arith)
            (url_encode-Lacks_ampersand r hr)))

-- An entry with a verifier is read back from what was written for it, whatever bytes it holds.
pub decode-encode_state_entry :
    (entry : StateEntry)
    → All IsByte entry.code_verifier
    → All IsByte entry.realm
    → entry.code_verifier ≢ []
    → decode_state_entry (encode_state_entry entry) ≡ some entry
unfolding decode_state_entry encode_state_entry read_fields
decode-encode_state_entry entry hv hr ne = ground (
  arith,
  split_fields entry.code_verifier entry.realm hv hr,
  read_verifier entry.code_verifier (record { code_verifier = []; realm = [] }) hv,
  read_realm entry.realm (record { code_verifier = entry.code_verifier; realm = [] }) hr,
  not_empty entry.code_verifier ne,
)
