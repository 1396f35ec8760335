-- ===== src/Oidc/Uri.antt =====
-- parse_absolute_uri and request_url of oidc_utils.hpp.
pub mod Parts
pub mod RoundTrip
use uidentity.Base.{
  ℕ, ◌-◌, ◌%◌, ◌^◌, [], ◌∷◌, ◌++◌, Option, none, some, Bytes, codes, ◌==◌, if◌then◌else◌, is_empty,
  ltb, length, take, find_after, split_first, to_string, Result, ok, ◌>>=◌,
}
use uidentity.Base.Int.{ℤ, pos, negsuc}
use uidentity.Json.Integers.{stoi_or_throw}
use uidentity.Http.{Uri, Request}

-- `static_cast<std::uint16_t>`
unfoldable pub cast_uint16 : ℤ → ℕ
cast_uint16 (pos n) = n % 2 ^ 16
cast_uint16 (negsuc n) = 2 ^ 16 - 1 - n % 2 ^ 16

-- `rfind(b)`: the text before the last `b`, and the text behind it.
unfoldable pub split_at_last : ℕ → Bytes → Option (Bytes × Bytes)
split_at_last b [] = none
split_at_last b (c ∷ s) = elim (split_at_last b s) [
  | some (front, back) ↦ some (c ∷ front, back)
  | none ↦ if c == b then some ([], s) else none
]

-- `://` cuts off the scheme.
unfoldable pub split_scheme : Bytes → Bytes × Bytes
split_scheme url = elim (find_after (codes "://") url) [
  | none ↦ ([], url)
  | some rest ↦ (take (length url - length rest - 3) url, rest)
]

-- The host and the port; zero where none is written.
unfoldable pub split_authority : Bytes → Result (Bytes × ℕ)
unfolding cast_uint16
split_authority authority = elim (split_at_last b':' authority) [
  | none ↦ ok (authority, 0)
  | some (host, []) ↦ ok (host, 0)
  | some (host, c ∷ port_text) ↦ do
    port ← stoi_or_throw (c ∷ port_text)
    ok (host, cast_uint16 port)
]

unfoldable pub or_slash : Bytes → Bytes
or_slash [] = codes "/"
or_slash (c ∷ s) = c ∷ s

-- The path: from the first slash up to the question mark. Where the question mark stands before the
-- slash, `path_end - path_start` wraps around, and `substr` takes all that is left.
unfoldable pub path_part : Bytes × Option Bytes → Bytes × Option Bytes → Bytes
unfolding or_slash
path_part (before_slash, none) query = codes "/"
path_part (before_slash, some path) (before_query, query) =
    if ltb (length before_slash) (length before_query)
    then or_slash (take (length before_query - length before_slash) (b'/' ∷ path))
    else b'/' ∷ path

unfoldable pub text_of : Option Bytes → Bytes
text_of none = []
text_of (some s) = s

unfoldable pub shorter : Bytes → Bytes → Bytes
shorter s t = if ltb (length s) (length t) then s else t

unfoldable pub parse_absolute_uri : Bytes → Result Uri
unfolding text_of shorter
parse_absolute_uri url = do
  let scheme = (split_scheme url).0
  let rest = (split_scheme url).1
  let slash = split_first b'/' rest
  let query = split_first b'?' rest
  authority ← split_authority (shorter slash.0 query.0)
  ok (record {
    scheme = scheme;
    host = authority.0;
    port = authority.1;
    path = path_part slash query;
    query = text_of query.1;
  })

unfoldable pub port_suffix : ℕ → Bytes
port_suffix port = if port == 0 then [] else codes ":" ++ to_string (pos port)

-- `host`, and `:port` where a port is set.
unfoldable pub host_and_port : Uri → Bytes
unfolding port_suffix
host_and_port uri = uri.host ++ port_suffix uri.port

unfoldable pub scheme_prefix : Bytes → Bytes
scheme_prefix [] = []
scheme_prefix (c ∷ s) = (c ∷ s) ++ codes "://"

unfoldable pub query_suffix : Bytes → Bytes
query_suffix [] = []
query_suffix (c ∷ s) = codes "?" ++ (c ∷ s)

unfoldable pub request_url : Request → Bytes
unfolding or_slash scheme_prefix query_suffix
request_url request =
    scheme_prefix request.uri.scheme
    ++ ((if is_empty request.authority then host_and_port request.uri else request.authority)
        ++ (or_slash request.uri.path ++ query_suffix request.uri.query))
