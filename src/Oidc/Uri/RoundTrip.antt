-- ===== src/Oidc/Uri/RoundTrip.antt =====
-- An address that request_url wrote, at parse_absolute_uri.
use uidentity.Base.{
  ℕ, suc, ◌-◌, ◌^◌, ◌<◌, true, [], ◌∷◌, ◌++◌, append_assoc, append-nil, Option, none, some, Bytes,
  codes, if◌then◌else◌, is_empty, ltb, length, length-append, take-append, split_first,
  split_first-append, split_first-Lacks, Lacks, All-append, ok, ◌≡◌, ◌≢◌, refl, ◌∙◌, sym, ap, arith,
}
use uidentity.Json.Integers.Written.{IsDigit}
use uidentity.Http.{Uri, Request}
use uidentity.Oidc.Uri.{
  split_scheme, split_authority, or_slash, path_part, text_of, shorter, parse_absolute_uri,
  port_suffix, host_and_port, scheme_prefix, query_suffix, request_url,
}
use uidentity.Oidc.Uri.Parts.{port_suffix-Lacks, split_authority-port_suffix, split_scheme-append}

-- The addresses of http: a path stands behind the host, and the separators of the parts in front of it
-- occur in none of them.
pub record IsAddress (uri : Uri) : Type 0 where
  pub scheme_given : uri.scheme ≢ []
  pub scheme_plain : Lacks b':' uri.scheme
  pub host_no_colon : Lacks b':' uri.host
  pub host_no_slash : Lacks b'/' uri.host
  pub host_no_mark : Lacks b'?' uri.host
  pub port_fits : uri.port < 2 ^ 16
  pub path_behind : (path : Bytes) × (uri.path ≡ b'/' ∷ path) × Lacks b'?' path

-- The address by its parts.
parse_parts :
    (url rest host : Bytes) (port : ℕ) (slash query : Bytes × Option Bytes)
    → (split_scheme url).1 ≡ rest
    → split_first b'/' rest ≡ slash
    → split_first b'?' rest ≡ query
    → split_authority (shorter slash.0 query.0) ≡ ok (host, port)
    → parse_absolute_uri url
      ≡ ok (record {
        scheme = (split_scheme url).0;
        host = host;
        port = port;
        path = path_part slash query;
        query = text_of query.1;
      })
unfolding parse_absolute_uri
parse_parts url rest host port slash query r s q a = ground (arith, r, s, q, a)

length-shorter : (s t : Bytes) → shorter s (s ++ b'/' ∷ t) ≡ s
unfolding shorter
length-shorter s t = ground (arith, length-append s (b'/' ∷ t))

query_of : Bytes → Option Bytes
query_of [] = none
query_of (c ∷ s) = some (c ∷ s)

split_first-query_suffix :
    (front query : Bytes)
    → Lacks b'?' front
    → split_first b'?' (front ++ query_suffix query) ≡ (front, query_of query)
unfolding query_suffix query_of
split_first-query_suffix front [] h = rw (append-nil front) (split_first-Lacks b'?' front h)
split_first-query_suffix front (c ∷ s) h = split_first-append b'?' front (c ∷ s) h

text_of-query_of : (query : Bytes) → text_of (query_of query) ≡ query
unfolding text_of query_of
text_of-query_of [] = refl
text_of-query_of (c ∷ s) = refl

path_part_behind :
    (authority path : Bytes) (query : Option Bytes) (more : Bytes)
    → path_part (authority, some (path ++ more)) (authority ++ b'/' ∷ path, query) ≡ b'/' ∷ path
unfolding path_part or_slash
path_part_behind authority path query more =
    let e : length (authority ++ b'/' ∷ path) - length authority ≡ suc (length path) =
      omega (arith, length-append authority (b'/' ∷ path)) in
    let lt : ltb (length authority) (length (authority ++ b'/' ∷ path)) ≡ true =
      ground (arith, length-append authority (b'/' ∷ path)) in
    rw (lt, e) (ap (λ t. b'/' ∷ t) (take-append path more))

abbrev authority_of : Uri → Bytes
authority_of uri = uri.host ++ port_suffix uri.port

abbrev written : Bytes → Bytes → Uri → Bytes
written scheme path uri =
    scheme ++ (codes "://" ++ (authority_of uri ++ (path ++ query_suffix uri.query)))

authority-Lacks :
    (b : ℕ) (uri : Uri) → Lacks b uri.host → b ≢ b':' → (IsDigit b → ⊥) → Lacks b (authority_of uri)
authority-Lacks b uri h n d =
    All-append (λ c. c ≢ b) uri.host (port_suffix uri.port) h (port_suffix-Lacks b uri.port n d)

parse-written :
    (uri : Uri) (path : Bytes)
    → IsAddress uri
    → Lacks b'?' path
    → parse_absolute_uri (written uri.scheme (b'/' ∷ path) uri)
      ≡ ok (record {
        scheme = uri.scheme;
        host = uri.host;
        port = uri.port;
        path = b'/' ∷ path;
        query = uri.query;
      })
parse-written uri path w no_mark =
    let authority = authority_of uri in
    let rest = authority ++ ((b'/' ∷ path) ++ query_suffix uri.query) in
    let cut = split_scheme-append uri.scheme rest w.scheme_plain in
    let slash =
      split_first-append b'/' authority (path ++ query_suffix uri.query)
        (authority-Lacks b'/' uri w.host_no_slash (omega arith) (λ d. omega arith)) in
    let front_Lacks =
      All-append (λ c. c ≢ b'?') authority (b'/' ∷ path)
        (authority-Lacks b'?' uri w.host_no_mark (omega arith) (λ d. omega arith))
        (omega arith, no_mark) in
    let query =
      ap (split_first b'?') (sym (append_assoc authority (b'/' ∷ path) (query_suffix uri.query)))
      ∙ split_first-query_suffix (authority ++ b'/' ∷ path) uri.query front_Lacks in
    parse_parts (written uri.scheme (b'/' ∷ path) uri) rest uri.host uri.port _ _
      (ap (λ p. p.1) cut) slash query
      (ap split_authority (length-shorter authority path)
        ∙ split_authority-port_suffix uri.host uri.port w.host_no_colon w.port_fits)
    ∙ cc (
      ap (λ p. p.0) cut,
      path_part_behind authority path (query_of uri.query) (query_suffix uri.query),
      text_of-query_of uri.query,
    )

scheme_prefix_given :
    (scheme rest : Bytes)
    → scheme ≢ []
    → scheme_prefix scheme ++ rest ≡ scheme ++ (codes "://" ++ rest)
unfolding scheme_prefix
scheme_prefix_given [] rest h = absurd (h refl)
scheme_prefix_given (c ∷ s) rest h = append_assoc (c ∷ s) (codes "://") rest

either_authority : (s t : Bytes) → s ≡ t → (if is_empty s then t else s) ≡ t
either_authority [] t e = refl
either_authority (c ∷ s) t e = e

request_url-written :
    (request : Request) (path : Bytes)
    → request.uri.scheme ≢ []
    → request.authority ≡ host_and_port request.uri
    → request.uri.path ≡ b'/' ∷ path
    → request_url request ≡ written request.uri.scheme (b'/' ∷ path) request.uri
unfolding request_url or_slash host_and_port
request_url-written request path n a p =
    let host : (if is_empty request.authority then host_and_port request.uri else request.authority)
        ≡ authority_of request.uri =
      either_authority request.authority (host_and_port request.uri) a in
    let whole : (if is_empty request.authority
            then host_and_port request.uri
            else request.authority)
          ++ (or_slash request.uri.path ++ query_suffix request.uri.query)
        ≡ authority_of request.uri ++ ((b'/' ∷ path) ++ query_suffix request.uri.query) =
      ap (λ h. h ++ (or_slash request.uri.path ++ query_suffix request.uri.query)) host
      ∙ ap (λ q. authority_of request.uri ++ (or_slash q ++ query_suffix request.uri.query)) p in
    scheme_prefix_given request.uri.scheme _ n
    ∙ ap (λ t. request.uri.scheme ++ (codes "://" ++ t)) whole

same_uri :
    (uri : Uri) (path : Bytes) → uri.path ≡ b'/' ∷ path → record uri { path = b'/' ∷ path } ≡ uri
same_uri uri path e = ap (λ q. record uri { path = q }) (sym e)

-- parse_absolute_uri reads back the address of a request from the text that request_url writes for it,
-- where the host and the port stand in its authority: the scheme, the host, the port or zero, the path and
-- the query. The address has a scheme and a path, no separator stands in a part before it, and the port
-- fits into 16 bits.
pub parse_absolute_uri-request_url :
    (request : Request)
    → IsAddress request.uri
    → request.authority ≡ host_and_port request.uri
    → parse_absolute_uri (request_url request) ≡ ok request.uri
parse_absolute_uri-request_url request w a =
    let (path, e, no_mark) = w.path_behind in
    ap parse_absolute_uri (request_url-written request path w.scheme_given a e)
    ∙ parse-written request.uri path w no_mark
    ∙ ap ok (same_uri request.uri path e)
