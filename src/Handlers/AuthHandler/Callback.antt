-- ===== src/Handlers/AuthHandler/Callback.antt =====
-- A callback: what it passes on, and what it answers.
use uidentity.Base.{
  ℕ, ◌%◌, ◌^◌, ◌≤◌, false, [], ◌∷◌, ◌++◌, some, Bytes, codes, lookup, insert_or_assign, eq_bytes,
  length, ok, ◌≡◌, refl, ◌∙◌, ap, arith, All, IsByte,
}
use uidentity.Http.{Request, Response}
use uidentity.Json.Text.{text, print}
use uidentity.Json.Extract.{extract_json_string}
use uidentity.Oidc.Form.{Fields, build_form_body}
use uidentity.Oidc.Form.RoundTrip.{assign_all, parse_form_encoded-build_form_body}
use uidentity.Client.Store.{CallbackResult}
use uidentity.Handlers.AuthHandler.{
  AuthHandlerConfig, Calls, callback_params, callback_input, callback_reply, callback, replied,
  error_body, json_escape,
}
use uidentity.Handlers.AuthHandler.Escape.{extract_json_string-error_body}

-- The parameters of a redirect back from the authorization endpoint.
abbrev pub redirect_fields : Bytes → Bytes → Fields
redirect_fields code state = (codes "state", state) ∷ (codes "code", code) ∷ []

params_read :
    (request : Request) (code state : Bytes)
    → eq_bytes request.method_token (codes "POST") ≡ false
    → request.uri.query ≡ build_form_body (redirect_fields code state)
    → All IsByte code
    → All IsByte state
    → callback_params request ≡ assign_all (redirect_fields code state) []
unfolding callback_params
params_read request code state m q hc hs = ground (
  arith,
  q,
  parse_form_encoded-build_form_body (redirect_fields code state)
      ((omega arith, hs), ((omega arith, hc), tt)),
)

input_read :
    (code state : Bytes)
    → callback_input (assign_all (redirect_fields code state) [])
      ≡ record { code = code; state = state }
unfolding callback_input lookup insert_or_assign eq_bytes
input_read code state = refl

pub refused_body :
    (config : AuthHandlerConfig) (result : CallbackResult) (response : Response)
    → result.accepted ≡ false
    → (callback_reply config result response).body ≡ error_body result.error
unfolding callback_reply
refused_body config result response h = ground arith

pub refused_status :
    (config : AuthHandlerConfig) (result : CallbackResult) (response : Response)
    → result.accepted ≡ false
    → (callback_reply config result response).status_code ≡ result.http_status % 2 ^ 16
unfolding callback_reply
refused_status config result response h = ground arith

pub refused_headers :
    (config : AuthHandlerConfig) (result : CallbackResult) (response : Response)
    → result.accepted ≡ false
    → (callback_reply config result response).headers
      ≡ ((response.headers ++ (codes "Cache-Control", codes "no-store") ∷ [])
          ++ (codes "Pragma", codes "no-cache") ∷ [])
        ++ (codes "Content-Type", codes "application/json") ∷ []
unfolding callback_reply
refused_headers config result response h = ground arith

-- A redirect back whose query was written from a code and a state of bytes, and which is no POST, has the
-- login completed with that code and that state. Where the login is refused, the response has its status,
-- no cookie is added, and the library's own reader finds the text of its error in the body, within fuel
-- of the length of the escaped text and its quotes.
pub callback-completes :
    {X : Type 0} (calls : Calls X) (config : AuthHandlerConfig) (request : Request)
    (response : Response) (x : X) (code state : Bytes)
    → eq_bytes request.method_token (codes "POST") ≡ false
    → request.uri.query ≡ build_form_body (redirect_fields code state)
    → All IsByte code
    → All IsByte state
    → let reply : CallbackResult → Response = λ result. callback_reply config result response in
      (callback calls config request response x
        ≡ replied reply (calls.complete_login (record { code = code; state = state }) x))
      × ((result : CallbackResult) (fuel : ℕ)
          → result.accepted ≡ false
          → length (print (text (json_escape result.error))) ≤ fuel
          → ((reply result).status_code ≡ result.http_status % 2 ^ 16)
            × ((reply result).headers
                ≡ ((response.headers ++ (codes "Cache-Control", codes "no-store") ∷ [])
                    ++ (codes "Pragma", codes "no-cache") ∷ [])
                  ++ (codes "Content-Type", codes "application/json") ∷ [])
            × (extract_json_string fuel (reply result).body (codes "error")
                ≡ ok (some result.error)))
unfolding callback
callback-completes calls config request response x code state m q hc hs = (
  ap
        (λ p.
          replied (λ result. callback_reply config result response)
            (calls.complete_login (callback_input p) x))
        (params_read request code state m q hc hs)
      ∙ ap
          (λ i.
            replied (λ result. callback_reply config result response) (calls.complete_login i x))
          (input_read code state),
  λ result fuel h enough. (
    refused_status config result response h,
    refused_headers config result response h,
    ap (λ b. extract_json_string fuel b (codes "error")) (refused_body config result response h)
        ∙ extract_json_string-error_body result.error fuel enough,
  ),
)
