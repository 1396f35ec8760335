-- ===== src/Oidc/Form/RoundTrip.antt =====
-- parse_form_encoded reads back what build_form_body wrote.
use uidentity.Base.{
  ℕ, List, [], ◌∷◌, ◌++◌, append-nil, Bytes, Dict, insert_or_assign, split_on, split_first-append,
  split_on-append, split_on-Lacks, ◌≡◌, refl, ◌∙◌, ap, arith, All, All-append, IsByte, Lacks, map,
}
use mathlib.Core.Path.{ap₂}
use uidentity.Utils.UrlEncode.{url_encode, url_decode}
use uidentity.Utils.UrlEncode.RoundTrip.{
  url_decode-url_encode, url_encode-IsUrlSafe, IsUrlSafe, IsUrlSafe-Lacks,
}
use uidentity.Oidc.Form.{
  Fields, form_field, more_fields, build_form_body, plus_to_space, decode_form_component,
  read_param, read_params, parse_form_encoded,
}

abbrev pub IsField : Bytes × Bytes → Type 0
IsField (key, value) = All IsByte key × All IsByte value

-- The fields one after the other, a later one over an earlier one of the same key.
abbrev pub assign_all : Fields → Dict Bytes → Dict Bytes
assign_all [] params = params
assign_all ((key, value) ∷ fs) params = assign_all fs (insert_or_assign key value params)

pub url_encode-Lacks : (b : ℕ) (s : Bytes) → ¬ IsUrlSafe b → All IsByte s → Lacks b (url_encode s)
url_encode-Lacks b s n h = IsUrlSafe-Lacks b (url_encode s) n (url_encode-IsUrlSafe s h)

map-plus_to_space : (s : Bytes) → Lacks b'+' s → map plus_to_space s ≡ s
unfolding plus_to_space
map-plus_to_space [] h = refl
map-plus_to_space (c ∷ s) h = ground (arith, map-plus_to_space s h.1)

pub decode_form_component-url_encode :
    (s : Bytes) → All IsByte s → decode_form_component (url_encode s) ≡ s
unfolding decode_form_component
decode_form_component-url_encode s h =
    ap url_decode (map-plus_to_space (url_encode s) (url_encode-Lacks b'+' s (λ u. ground arith) h))
    ∙ url_decode-url_encode s h

read_param-append :
    (k v : Bytes) (params : Dict Bytes)
    → Lacks b'=' k
    → read_param (k ++ b'=' ∷ v) params
      ≡ insert_or_assign (decode_form_component k) (decode_form_component v) params
unfolding read_param
read_param-append [] v params h = ground (arith, split_first-append b'=' [] v h)
read_param-append (c ∷ k) v params h = ground (arith, split_first-append b'=' (c ∷ k) v h)

read_param-form_field :
    (f : Bytes × Bytes) (params : Dict Bytes)
    → IsField f
    → read_param (form_field f) params ≡ insert_or_assign f.0 f.1 params
unfolding form_field
read_param-form_field (key, value) params (hk, hv) =
    read_param-append (url_encode key) (url_encode value) params
      (url_encode-Lacks b'=' key (λ u. ground arith) hk)
    ∙ ap₂ (λ k v. insert_or_assign k v params) (decode_form_component-url_encode key hk)
        (decode_form_component-url_encode value hv)

pub form_field-Lacks : (f : Bytes × Bytes) → IsField f → Lacks b'&' (form_field f)
unfolding form_field
form_field-Lacks (key, value) (hk, hv) =
    All-append _ (url_encode key) _ (url_encode-Lacks b'&' key (λ u. ground arith) hk)
      (omega arith, url_encode-Lacks b'&' value (λ u. ground arith) hv)

-- The parts of a text of fields.
abbrev parts : Bytes × Bytes → Fields → List Bytes
parts f [] = form_field f ∷ []
parts f (g ∷ gs) = form_field f ∷ parts g gs

split_on-parts :
    (f : Bytes × Bytes) (fs : Fields)
    → IsField f
    → All IsField fs
    → split_on b'&' (form_field f ++ more_fields fs) ≡ parts f fs
unfolding more_fields
split_on-parts f [] h _ =
    ap (split_on b'&') (append-nil (form_field f))
    ∙ split_on-Lacks b'&' (form_field f) (form_field-Lacks f h)
split_on-parts f (g ∷ fs) h (hg, hs) =
    split_on-append b'&' (form_field f) (form_field g ++ more_fields fs) (form_field-Lacks f h)
    ∙ ap (λ ps. form_field f ∷ ps) (split_on-parts g fs hg hs)

read_parts :
    (f : Bytes × Bytes) (fs : Fields) (params : Dict Bytes)
    → IsField f
    → All IsField fs
    → read_params (parts f fs) params ≡ assign_all fs (insert_or_assign f.0 f.1 params)
unfolding read_params
read_parts f [] params h _ = read_param-form_field f params h
read_parts f (g ∷ fs) params h (hg, hs) =
    ap (read_params (parts g fs)) (read_param-form_field f params h)
    ∙ read_parts g fs (insert_or_assign f.0 f.1 params) hg hs

-- What build_form_body wrote for fields of bytes, parse_form_encoded reads back, a later field over an
-- earlier one of the same key.
pub parse_form_encoded-build_form_body :
    (fs : Fields) → All IsField fs → parse_form_encoded (build_form_body fs) ≡ assign_all fs []
unfolding parse_form_encoded build_form_body
parse_form_encoded-build_form_body [] _ = unfold split_on read_params read_param in refl
parse_form_encoded-build_form_body (f ∷ fs) (h, hs) =
    ap (λ ps. read_params ps []) (split_on-parts f fs h hs) ∙ read_parts f fs [] h hs
