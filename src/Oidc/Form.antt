-- ===== src/Oidc/Form.antt =====
-- build_form_body of oidc_utils.hpp and build_query of pkce_auth_strat.hpp, which are one function, and
-- parse_form_encoded of AuthHandler.h, which reads such a text.
pub mod RoundTrip
use uidentity.Base.{
  ℕ, List, [], ◌∷◌, ◌++◌, Option, none, some, Bytes, Dict, insert_or_assign, split_first, split_on,
  ◌==◌, if◌then◌else◌, map,
}
use uidentity.Utils.UrlEncode.{url_encode, url_decode}

abbrev pub Fields : Type 0
Fields = List (Bytes × Bytes)

unfoldable pub form_field : Bytes × Bytes → Bytes
form_field (key, value) = url_encode key ++ b'=' ∷ url_encode value

-- The rounds behind the first put an ampersand in front.
unfoldable pub more_fields : Fields → Bytes
more_fields [] = []
more_fields (f ∷ fs) = b'&' ∷ (form_field f ++ more_fields fs)

unfoldable pub build_form_body : Fields → Bytes
build_form_body [] = []
build_form_body (f ∷ fs) = form_field f ++ more_fields fs

unfoldable pub plus_to_space : ℕ → ℕ
plus_to_space c = if c == b'+' then 32 else c

unfoldable pub decode_form_component : Bytes → Bytes
decode_form_component value = url_decode (map plus_to_space value)

abbrev pub decoded : Option Bytes → Bytes
decoded none = []
decoded (some value) = decode_form_component value

-- One part between the ampersands.
unfoldable pub read_param : Bytes → Dict Bytes → Dict Bytes
read_param [] params = params
read_param (c ∷ s) params =
    let (key, value) = split_first b'=' (c ∷ s) in
    insert_or_assign (decode_form_component key) (decoded value) params

unfoldable pub read_params : List Bytes → Dict Bytes → Dict Bytes
read_params [] params = params
read_params (p ∷ ps) params = read_params ps (read_param p params)

unfoldable pub parse_form_encoded : Bytes → Dict Bytes
parse_form_encoded raw = read_params (split_on b'&' raw) []
