-- ===== src/Utils/Tests.antt =====
-- Runs of the helpers, and the theorems about them at concrete inputs.
use uidentity.Base.{◌∷◌, codes, ◌≡◌, refl, arith}
use mathlib.Core.List.{cons-ne-nil}
use uidentity.Base.{none, true, []}
use uidentity.Utils.Cookies.{CookieOptions, parse_cookie_header}
use uidentity.Utils.Cookies.RoundTrip.{
  cookie_string, assign_cookies, parse_cookie_header-make_set_cookie,
}
use uidentity.Utils.UrlEncode.RoundTrip.{url_decode-url_encode}
use uidentity.Utils.UrlEncode.{
  url_encode, url_decode, encode_byte, should_encode, hex_digit, read_hex,
}

escaped_space : url_encode (codes "a b&c") ≡ codes "a%20b%26c"
unfolding url_encode encode_byte should_encode hex_digit
escaped_space = refl

decoded_forms : url_decode (codes "%41%4a%-1%+5%4g%zz%") ≡ 65 ∷ 74 ∷ 255 ∷ 5 ∷ 4 ∷ codes "%zz%"
unfolding url_decode read_hex
decoded_forms = refl

url_decode-url_encode_example : url_decode (url_encode (codes "a b%c")) ≡ codes "a b%c"
url_decode-url_encode_example = url_decode-url_encode (codes "a b%c") (omega arith)

abbrev session_options : CookieOptions
session_options = record {
  path = codes "/";
  http_only = true;
  secure = true;
  same_site = codes "Lax";
  max_age_seconds = none;
}

parse_cookie_header-make_set_cookie_example :
    parse_cookie_header
      (cookie_string session_options (codes "a;", codes "1 2") ((codes "b", []) ∷ []))
    ≡ assign_cookies ((codes "a;", codes "1 2") ∷ (codes "b", []) ∷ []) []
parse_cookie_header-make_set_cookie_example =
    parse_cookie_header-make_set_cookie session_options (codes "a;", codes "1 2")
      ((codes "b", []) ∷ []) (cons-ne-nil _ _, omega arith, omega arith)
      ((cons-ne-nil _ _, omega arith, tt), tt)
