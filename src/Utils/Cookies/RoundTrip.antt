-- ===== src/Utils/Cookies/RoundTrip.antt =====
-- parse_cookie_header reads back the names and the values of make_set_cookie.
use uidentity.Base.{
  ℕ, false, List, [], ◌∷◌, ◌++◌, append_assoc, some, Bytes, is_empty, is_space, Dict,
  insert_or_assign, split_first, split_on, split_first-append, split_on-append, split_on-Lacks, ◌≡◌,
  ◌≢◌, refl, ◌∙◌, sym, ap, arith, All, All-append, IsByte, Lacks,
}
use uidentity.Utils.UrlEncode.{url_encode, encode_byte}
use uidentity.Utils.UrlEncode.RoundTrip.{
  url_decode-url_encode, url_encode-IsUrlSafe, IsUrlSafe, IsUrlSafe-Lacks,
}
use uidentity.Utils.Cookies.{
  CookieOptions, drop_spaces, drop_end_spaces, trim_copy, read_cookie, read_cookies,
  parse_cookie_header, cookie_attributes, make_set_cookie,
}

-- A cookie that has a name.
abbrev pub IsCookie : Bytes × Bytes → Type 0
IsCookie (name, value) = (name ≢ []) × All IsByte name × All IsByte value

-- What a client sends back of a Set-Cookie text: all in front of the first semicolon.
abbrev pub sent_back : CookieOptions → Bytes × Bytes → Bytes
sent_back options (name, value) = (split_first b';' (make_set_cookie name value options)).0

-- RFC 6265, section 4.2.1: the pairs with a semicolon and a space between them.
abbrev pub cookie_string : CookieOptions → Bytes × Bytes → List (Bytes × Bytes) → Bytes
cookie_string options c [] = sent_back options c
cookie_string options c (d ∷ ds) = sent_back options c ++ b';' ∷ 32 ∷ cookie_string options d ds

abbrev pub assign_cookies : List (Bytes × Bytes) → Dict Bytes → Dict Bytes
assign_cookies [] cookies = cookies
assign_cookies ((name, value) ∷ cs) cookies =
    assign_cookies cs (insert_or_assign name value cookies)

abbrev NoSpace : Bytes → Type 0
NoSpace = All (λ c. is_space c ≡ false)

safe-NoSpace : (s : Bytes) → All IsUrlSafe s → NoSpace s
unfolding is_space
safe-NoSpace [] h = tt
safe-NoSpace (c ∷ s) (hc, hs) = (ground arith, safe-NoSpace s hs)

drop_spaces-NoSpace : (s : Bytes) → NoSpace s → drop_spaces s ≡ s
unfolding drop_spaces
drop_spaces-NoSpace [] h = refl
drop_spaces-NoSpace (c ∷ s) (h, _) = rw h

drop_end_spaces-NoSpace : (s : Bytes) → NoSpace s → drop_end_spaces s ≡ s
unfolding drop_end_spaces
drop_end_spaces-NoSpace [] h = refl
drop_end_spaces-NoSpace (c ∷ s) (h, hs) = ground (arith, drop_end_spaces-NoSpace s hs)

trim_copy-url_encode : (s : Bytes) → All IsByte s → trim_copy (url_encode s) ≡ url_encode s
unfolding trim_copy
trim_copy-url_encode s h =
    let n = safe-NoSpace (url_encode s) (url_encode-IsUrlSafe s h) in
    ap drop_end_spaces (drop_spaces-NoSpace _ n) ∙ drop_end_spaces-NoSpace _ n

trim_copy_space : (s : Bytes) → trim_copy (32 ∷ s) ≡ trim_copy s
unfolding trim_copy drop_spaces is_space
trim_copy_space s = refl

url_encode-Lacks : (b : ℕ) (s : Bytes) → ¬ IsUrlSafe b → All IsByte s → Lacks b (url_encode s)
url_encode-Lacks b s n h = IsUrlSafe-Lacks b (url_encode s) n (url_encode-IsUrlSafe s h)

abbrev pub pair_text : Bytes × Bytes → Bytes
pair_text (name, value) = url_encode name ++ b'=' ∷ url_encode value

pair_text-Lacks : (c : Bytes × Bytes) → IsCookie c → Lacks b';' (pair_text c)
pair_text-Lacks (name, value) (_, hn, hv) =
    All-append _ (url_encode name) _ (url_encode-Lacks b';' name (λ u. ground arith) hn)
      (omega arith, url_encode-Lacks b';' value (λ u. ground arith) hv)

attributes_start : (options : CookieOptions) → (t : Bytes) × (cookie_attributes options ≡ b';' ∷ t)
unfolding cookie_attributes
attributes_start options = (_, refl)

pub sent_back-pair_text :
    (options : CookieOptions) (c : Bytes × Bytes) → IsCookie c → sent_back options c ≡ pair_text c
unfolding make_set_cookie
sent_back-pair_text options (name, value) h =
    let (t, e) = attributes_start options in
    ap (λ s. (split_first b';' (url_encode name ++ b'=' ∷ (url_encode value ++ s))).0) e
    ∙ ap (λ s. (split_first b';' s).0)
        (sym (append_assoc (url_encode name) (b'=' ∷ url_encode value) (b';' ∷ t)))
    ∙ ap (λ p. p.0)
        (split_first-append b';' (pair_text (name, value)) t (pair_text-Lacks (name, value) h))

encode_byte-is_empty : (c : ℕ) (s : Bytes) → is_empty (encode_byte c ++ s) ≡ false
unfolding encode_byte
encode_byte-is_empty c s = ground arith

url_encode-is_empty : (s : Bytes) → s ≢ [] → is_empty (url_encode s) ≡ false
unfolding url_encode
url_encode-is_empty [] h = absurd (h refl)
url_encode-is_empty (c ∷ s) h = encode_byte-is_empty c (url_encode s)

-- A part that is split into a name and a value once both are trimmed.
read_cookie_named :
    (part name value before behind : Bytes) (cookies : Dict Bytes)
    → split_first b'=' part ≡ (before, some behind)
    → trim_copy before ≡ url_encode name
    → trim_copy behind ≡ url_encode value
    → IsCookie (name, value)
    → read_cookie part cookies ≡ insert_or_assign name value cookies
unfolding read_cookie
read_cookie_named part name value before behind cookies e n v (ne, hn, hv) = ground (
  arith,
  url_encode-is_empty name ne,
  url_decode-url_encode name hn,
  url_decode-url_encode value hv,
)

read_cookie-pair_text :
    (c : Bytes × Bytes) (cookies : Dict Bytes)
    → IsCookie c
    → read_cookie (pair_text c) cookies ≡ insert_or_assign c.0 c.1 cookies
read_cookie-pair_text (name, value) cookies (ne, hn, hv) =
    read_cookie_named _ name value (url_encode name) (url_encode value) cookies
      (split_first-append b'=' (url_encode name) (url_encode value)
        (url_encode-Lacks b'=' name (λ u. ground arith) hn))
      (trim_copy-url_encode name hn) (trim_copy-url_encode value hv) (ne, hn, hv)

read_cookie_space :
    (c : Bytes × Bytes) (cookies : Dict Bytes)
    → IsCookie c
    → read_cookie (32 ∷ pair_text c) cookies ≡ insert_or_assign c.0 c.1 cookies
read_cookie_space (name, value) cookies (ne, hn, hv) =
    read_cookie_named _ name value (32 ∷ url_encode name) (url_encode value) cookies
      (split_first-append b'=' (32 ∷ url_encode name) (url_encode value)
        (omega arith, url_encode-Lacks b'=' name (λ u. ground arith) hn))
      (trim_copy_space (url_encode name) ∙ trim_copy-url_encode name hn)
      (trim_copy-url_encode value hv) (ne, hn, hv)

-- The parts behind the first have a space in front.
abbrev later_parts : List (Bytes × Bytes) → List Bytes
later_parts [] = []
later_parts (c ∷ cs) = (32 ∷ pair_text c) ∷ later_parts cs

split_on-cookie_string :
    (w : Bytes) (options : CookieOptions) (c : Bytes × Bytes) (cs : List (Bytes × Bytes))
    → Lacks b';' w
    → IsCookie c
    → All IsCookie cs
    → split_on b';' (w ++ cookie_string options c cs) ≡ (w ++ pair_text c) ∷ later_parts cs
split_on-cookie_string w options c [] hw h _ =
    ap (λ s. split_on b';' (w ++ s)) (sent_back-pair_text options c h)
    ∙ split_on-Lacks b';' (w ++ pair_text c) (All-append _ w _ hw (pair_text-Lacks c h))
split_on-cookie_string w options c (d ∷ ds) hw h (hd, hs) =
    ap (λ s. split_on b';' (w ++ (s ++ b';' ∷ 32 ∷ cookie_string options d ds)))
      (sent_back-pair_text options c h)
    ∙ ap (split_on b';')
        (sym (append_assoc w (pair_text c) (b';' ∷ 32 ∷ cookie_string options d ds)))
    ∙ split_on-append b';' (w ++ pair_text c) (32 ∷ cookie_string options d ds)
        (All-append _ w _ hw (pair_text-Lacks c h))
    ∙ ap (λ ps. (w ++ pair_text c) ∷ ps)
        (split_on-cookie_string (32 ∷ []) options d ds (omega arith, tt) hd hs)

read_cookies-later_parts :
    (cs : List (Bytes × Bytes)) (cookies : Dict Bytes)
    → All IsCookie cs
    → read_cookies (later_parts cs) cookies ≡ assign_cookies cs cookies
unfolding read_cookies
read_cookies-later_parts [] cookies _ = refl
read_cookies-later_parts (c ∷ cs) cookies (h, hs) =
    ap (read_cookies (later_parts cs)) (read_cookie_space c cookies h)
    ∙ read_cookies-later_parts cs (insert_or_assign c.0 c.1 cookies) hs

-- Where a client sends back the cookies that make_set_cookie set, each up to its first semicolon and with
-- a semicolon and a space between two, parse_cookie_header has their names and values, a later one over
-- an earlier one of the same name. Each cookie has a name, and holds bytes.
pub parse_cookie_header-make_set_cookie :
    (options : CookieOptions) (c : Bytes × Bytes) (cs : List (Bytes × Bytes))
    → IsCookie c
    → All IsCookie cs
    → parse_cookie_header (cookie_string options c cs) ≡ assign_cookies (c ∷ cs) []
unfolding parse_cookie_header read_cookies
parse_cookie_header-make_set_cookie options c cs h hs =
    ap (λ ps. read_cookies ps []) (split_on-cookie_string [] options c cs tt h hs)
    ∙ ap (read_cookies (later_parts cs)) (read_cookie-pair_text c [] h)
    ∙ read_cookies-later_parts cs (insert_or_assign c.0 c.1 []) hs
