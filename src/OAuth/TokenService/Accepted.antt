-- ===== src/OAuth/TokenService/Accepted.antt =====
-- What a result that the token service accepts stands for.
use uidentity.Base.{
  ℕ, ◌≤◌, Bool, true, false, ◌∷◌, ◌++◌, Option, none, some, Bytes, codes, value_or, Result, ok,
  ok_inv, ◌≡◌, refl, ◌∙◌, sym, ap, arith, length, Bool-cases, inl, inr, find_after, Lacks,
}
use mathlib.Core.Bool.{false≢true}
use uidentity.Http.{Response}
use uidentity.Json.Extract.{extract_json_string, extract_json_bool, quoted}
use uidentity.Json.Text.{scalar, IsJson, IsBlank, IsStop}
use uidentity.Json.Lookup.{extract_json_bool_blank}
use uidentity.Validator.Keys.{effective_status, is_success}
use uidentity.OAuth.Types.{TokenSet, OAuthResult, no_user, refused, granted}
use uidentity.OAuth.TokenService.{
  request_failed, read_tokens, granted_tokens, parse_token_response, parse_introspection,
  read_introspection,
}
use uidentity.OAuth.TokenService.Laws.{request_failed-refused}

read_tokens-access_token :
    (fuel : ℕ) (body access_token : Bytes) (tokens : TokenSet)
    → read_tokens fuel body access_token ≡ ok tokens
    → tokens.access_token ≡ access_token
unfolding read_tokens
read_tokens-access_token fuel body access_token tokens h = ground arith

granted_tokens-accepted :
    (fuel : ℕ) (response : Response) (o : Option Bytes) (result : OAuthResult)
    → granted_tokens fuel response o ≡ ok result
    → result.accepted ≡ true
    → (o ≡ some result.tokens.access_token) × (result.http_status ≡ effective_status response)
unfolding granted_tokens
granted_tokens-accepted fuel response none result h t =
    let same : refused (effective_status response) (codes "token_response_missing_access_token")
        ≡ result =
      cc in
    absurd (false≢true (ap (λ (r : OAuthResult). r.accepted) same ∙ t))
granted_tokens-accepted fuel response (some access_token) result h t =
    let (tokens, e, r) = ok_inv (read_tokens fuel response.body access_token) _ h in
    let same : granted (effective_status response) tokens no_user ≡ result = cc in
    rw (sym same)
      (ap some (sym (read_tokens-access_token fuel response.body access_token tokens r)), refl)

-- A token response is accepted only with a status from 200 to 299 and with an access token, which is the
-- one of the result.
pub parse_token_response-accepted :
    (fuel : ℕ) (fallback : Bytes) (response : Response) (result : OAuthResult)
    → parse_token_response fuel fallback response ≡ ok result
    → result.accepted ≡ true
    → (is_success (effective_status response) ≡ true)
      × (extract_json_string fuel response.body (codes "access_token")
          ≡ ok (some result.tokens.access_token))
      × (result.http_status ≡ effective_status response)
unfolding parse_token_response
parse_token_response-accepted fuel fallback response result h t =
    elim (Bool-cases (is_success (effective_status response))) [
      | inl good ↦
          let (o, e, r) =
            ok_inv (extract_json_string fuel response.body (codes "access_token"))
              (granted_tokens fuel response) (rw (good, parse_token_response) at h) in
          let (given, status) = granted_tokens-accepted fuel response o result e t in
          (good, r ∙ ap ok given, status)
      | inr bad ↦
          let k : request_failed fuel response fallback ≡ ok result =
            rw (bad, parse_token_response) at h in
          absurd (false≢true (sym (request_failed-refused fuel response fallback result k) ∙ t))
    ]

active_of : (o : Option Bool) → value_or o false ≡ true → o ≡ some true
active_of none h = absurd (false≢true h)
active_of (some b) h = ap some h

abbrev introspected : ℕ → Response → Bool → Result OAuthResult
introspected fuel response false = ok (refused 401 (codes "inactive_token"))
introspected fuel response true = read_introspection fuel response

introspected-accepted :
    (fuel : ℕ) (response : Response) (b : Bool) (result : OAuthResult)
    → introspected fuel response b ≡ ok result
    → result.accepted ≡ true
    → b ≡ true
introspected-accepted fuel response false result h t =
    let same : refused 401 (codes "inactive_token") ≡ result = cc in
    absurd (false≢true (ap (λ (r : OAuthResult). r.accepted) same ∙ t))
introspected-accepted fuel response true result h t = refl

-- An introspection is accepted only with a status from 200 to 299 and with a Boolean `active` that is true.
pub parse_introspection-accepted :
    (fuel : ℕ) (response : Response) (result : OAuthResult)
    → parse_introspection fuel response ≡ ok result
    → result.accepted ≡ true
    → (is_success (effective_status response) ≡ true)
      × (extract_json_bool fuel response.body (codes "active") ≡ ok (some true))
unfolding parse_introspection
parse_introspection-accepted fuel response result h t =
    elim (Bool-cases (is_success (effective_status response))) [
      | inl good ↦
          let (o, e, r) =
            ok_inv (extract_json_bool fuel response.body (codes "active"))
              (λ o. introspected fuel response (value_or o false))
              (rw (good, parse_introspection) at h) in
          (
            good,
            r
                ∙ ap ok (
                    active_of o
                      (introspected-accepted fuel response (value_or o false) result e t)),
          )
      | inr bad ↦
          let k : request_failed fuel response (codes "token_introspection_failed") ≡ ok result =
            rw (bad, parse_introspection) at h in
          absurd (
            false≢true (
              sym
                (request_failed-refused fuel response (codes "token_introspection_failed") result k)
              ∙ t))
    ]

-- A successful introspection whose `active` has a space behind its literal is refused as inactive, also
-- where the literal is true.
pub parse_introspection_blank :
    (s : Bytes) (c fuel : ℕ) (response : Response) (m u w rest : Bytes)
    → is_success (effective_status response) ≡ true
    → find_after (quoted (codes "active")) response.body
      ≡ some (m ++ b':' ∷ (u ++ (s ++ (c ∷ w ++ rest))))
    → Lacks b':' m
    → IsJson (scalar s)
    → IsBlank u
    → IsBlank (c ∷ w)
    → IsStop rest
    → length s ≤ fuel
    → parse_introspection fuel response ≡ ok (refused 401 (codes "inactive_token"))
unfolding parse_introspection
parse_introspection_blank s c fuel response m u w rest good f l j hu hw k enough = ground (
  arith,
  good,
  extract_json_bool_blank s c fuel (codes "active") response.body m u w rest f l j hu hw k enough,
)
