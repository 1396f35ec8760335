-- ===== src/Utils/Cookies.antt =====
-- include/uidentity/utils/cookies.hpp.
pub mod RoundTrip
use uidentity.Base.{
  ℕ, zero, suc, Bool, true, false, not, List, [], ◌∷◌, ◌++◌, Option, none, some, Bytes, codes,
  is_empty, is_space, Dict, lookup, insert_or_assign, split_first, split_on, ◌==◌, if◌then◌else◌,
  to_string, ltb,
}
use uidentity.Base.Int.{ℤ, pos, negsuc, ltb_ℤ}
use uidentity.Utils.UrlEncode.{url_encode, url_decode}
use uidentity.Http.{Request}

pub record CookieOptions : Type 0 where
  pub path : Bytes
  pub http_only : Bool
  pub secure : Bool
  pub same_site : Bytes
  pub max_age_seconds : Option ℤ

pub record TokenCookieConfig : Type 0 where
  pub access_token_name : Bytes
  pub refresh_token_name : Bytes
  pub path : Bytes
  pub secure : Bool
  pub same_site : Bytes

-- The loop on `start`.
unfoldable pub drop_spaces : Bytes → Bytes
drop_spaces [] = []
drop_spaces (c ∷ s) = if is_space c then drop_spaces s else c ∷ s

-- The loop on `end`: the spaces at the end go.
unfoldable pub drop_end_spaces : Bytes → Bytes
drop_end_spaces [] = []
drop_end_spaces (c ∷ s) =
    let rest = drop_end_spaces s in
    if is_empty rest then (if is_space c then [] else c ∷ []) else c ∷ rest

unfoldable pub trim_copy : Bytes → Bytes
trim_copy value = drop_end_spaces (drop_spaces value)

abbrev pub trimmed : Option Bytes → Bytes
trimmed none = []
trimmed (some value) = trim_copy value

-- One part between the semicolons; a part with no name is left out.
unfoldable pub read_cookie : Bytes → Dict Bytes → Dict Bytes
read_cookie part cookies =
    let (before, behind) = split_first b'=' part in
    if is_empty (trim_copy before)
    then cookies
    else insert_or_assign (url_decode (trim_copy before)) (url_decode (trimmed behind)) cookies

unfoldable pub read_cookies : List Bytes → Dict Bytes → Dict Bytes
read_cookies [] cookies = cookies
read_cookies (p ∷ ps) cookies = read_cookies ps (read_cookie p cookies)

-- The loop stops at the end of the text, where one more part would be empty: it would add nothing.
unfoldable pub parse_cookie_header : Bytes → Dict Bytes
parse_cookie_header raw = read_cookies (split_on b';' raw) []

-- `request.headers.value` of the unet library.
abbrev pub HeaderValue : Type 0
HeaderValue = List (Bytes × Bytes) → Bytes → Option Bytes

unfoldable pub get_cookie : HeaderValue → Request → Bytes → Option Bytes
get_cookie header_value request name = elim (header_value request.headers (codes "Cookie")) [
  | none ↦ none
  | some raw_cookie ↦ lookup name (parse_cookie_header raw_cookie)
]

abbrev when_text : Bool → Bytes → Bytes
when_text true s = s
when_text false s = []

abbrev max_age_text : Option ℤ → Bytes
max_age_text none = []
max_age_text (some seconds) = codes "; Max-Age=" ++ to_string seconds

-- The attributes behind the name and the value.
unfoldable pub cookie_attributes : CookieOptions → Bytes
cookie_attributes options =
    codes "; Path="
    ++ (options.path
        ++ (max_age_text options.max_age_seconds
            ++ (when_text options.http_only (codes "; HttpOnly")
                ++ (when_text options.secure (codes "; Secure")
                    ++ when_text (not (is_empty options.same_site))
                        (codes "; SameSite=" ++ options.same_site)))))

unfoldable pub make_set_cookie : Bytes → Bytes → CookieOptions → Bytes
make_set_cookie name value options =
    url_encode name ++ b'=' ∷ (url_encode value ++ cookie_attributes options)

unfoldable pub make_expired_cookie : Bytes → CookieOptions → Bytes
make_expired_cookie name options =
    make_set_cookie name [] (record options { max_age_seconds = some (pos 0) })

-- The two overloads of `token_cookie_options`: with a lifetime, and without one.
unfoldable pub token_cookie_options : TokenCookieConfig → Option ℤ → CookieOptions
token_cookie_options config lifetime = record {
  path = config.path;
  http_only = true;
  secure = config.secure;
  same_site = config.same_site;
  max_age_seconds = elim lifetime [
    | none ↦ none
    | some seconds ↦ if ltb_ℤ (pos 0) seconds then some seconds else none
  ];
}
