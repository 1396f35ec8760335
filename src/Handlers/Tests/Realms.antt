-- ===== src/Handlers/Tests/Realms.antt =====
-- Logins over HTTP at a manager of one realm, and the theorems about them at concrete inputs.
use uidentity.Base.{
  ◌++◌, [], ◌∷◌, some, Bytes, codes, eq_bytes, lookup, insert_or_assign, split_first, split_on,
  onto_first, ok, false, ◌>>=◌, ◌≡◌, refl, arith,
}
use mathlib.Core.List.{cons-ne-nil}
use uidentity.Base.Int.{pos}
use uidentity.Http.{Request, Response}
use uidentity.Utils.UrlEncode.{url_decode}
use uidentity.Oidc.Form.{
  build_form_body, parse_form_encoded, read_params, read_param, decode_form_component,
  plus_to_space,
}
use uidentity.Pkce.Counted.{some_library, some_library-KeepsPromises}
use uidentity.OAuth.TokenService.{parse_token_response}
use uidentity.Client.Store.{callback_of}
use uidentity.Client.Store.Redis.{IsStorable}
use uidentity.Client.Store.Memory.{Outlives, memory_store-KeepsStates}
use uidentity.Client.MultiRealm
use uidentity.Client.MultiRealm.Binding.{Bound}
use uidentity.Client.Tests.{
  sixteen, manager, silent, some_store, some_store-KeepsStates, realm_config, one_config,
  some_start, manager-IsNamed, main_there, realm_started, state_there,
}
use uidentity.Client.Tests.Replay.{
  counted_clock, counted_clock-IsSteady, in_memory, one_state, main_entry, one_state_there,
}
use uidentity.Client.Tests.Binding.{
  endpoint, endpoint_parsed, realm_IsConfig, token_IsConfig, state_bytes,
}
use uidentity.Handlers.AuthHandler.{
  realm_param, login, login_reply, callback, callback_reply, error_body,
}
use uidentity.Handlers.AuthHandler.Callback.{redirect_fields}
use uidentity.Handlers.AuthHandler.Realms.{realm_calls, callback_twice}
use uidentity.Handlers.AuthHandler.Flow.{callback-login}
use uidentity.Handlers.Tests.{handler_config, fresh, request_with}

abbrev back_with : Bytes → Bytes → Request
back_with code state = request_with (build_form_body (redirect_fields code state)) []

back_get :
    (code state : Bytes) → eq_bytes (back_with code state).method_token (codes "POST") ≡ false
unfolding eq_bytes
back_get code state = refl

callback_twice_example :
    let calls = realm_calls in_memory some_library silent 40 manager in
    let s' =
      (callback calls handler_config
        (back_with (codes "x") (codes "s"))
        fresh
        (one_state, 0)).0.0 in
    let second = callback calls handler_config (back_with (codes "y") (codes "s")) fresh (s', 1) in
    (second.0.1 ≡ 1)
    × ((reply : Response) × (second.1 ≡ ok reply)
        × (reply.status_code ≡ 401)
        × (reply.body ≡ error_body (codes "invalid_or_expired_state"))
        × (reply.headers
            ≡ ((fresh.headers ++ (codes "Cache-Control", codes "no-store") ∷ [])
                ++ (codes "Pragma", codes "no-cache") ∷ [])
              ++ (codes "Content-Type", codes "application/json") ∷ []))
callback_twice_example =
    callback_twice in_memory some_library silent 40 manager handler_config (Outlives (pos 2))
      (memory_store-KeepsStates counted_clock (pos 2) counted_clock-IsSteady (λ n i. some sixteen))
      (back_with (codes "x") (codes "s")) (back_with (codes "y") (codes "s")) fresh fresh
      (codes "s") (codes "x") (codes "y") one_state 0 1 (some main_entry)
      (back_get (codes "x") (codes "s")) (back_get (codes "y") (codes "s")) refl refl (omega arith)
      (omega arith) (omega arith) (cons-ne-nil _ _) (cons-ne-nil _ _) (cons-ne-nil _ _)
      one_state_there

abbrev login_request : Request
login_request = request_with (codes "realm=main") []

realm_asked : realm_param (parse_form_encoded login_request.uri.query) ≡ some (codes "main")
unfolding realm_param parse_form_encoded split_on onto_first read_params read_param split_first
    decode_form_component plus_to_space url_decode insert_or_assign lookup eq_bytes
realm_asked = refl

callback-login_example :
    let calls = realm_calls some_store some_library silent 40 manager in
    let first = login calls handler_config login_request fresh ([], 0) in
    let second =
      callback calls handler_config (back_with (codes "x") some_start.state) fresh first.0 in
    (first.1 ≡ ok (login_reply some_start fresh))
    × ((verifier : Bytes) × (hash : Bytes) × (query : Bytes) × (sent : Request) × Bound some_library
          realm_config endpoint some_start
          (codes "x")
          verifier
          hash
          query
          sent
        × (second.0.1 ≡ (silent sent 0).0)
        × (second.1 ≡ (
            parse_token_response 40 (codes "token_exchange_failed") (silent sent 0).1 >>= λ r.
            ok (callback_reply handler_config (callback_of (codes "main") r) fresh))))
callback-login_example =
    callback-login some_store some_library silent 40 manager IsStorable some_store-KeepsStates
      some_library-KeepsPromises handler_config login_request
      (back_with (codes "x") some_start.state) fresh fresh [] 0 (codes "main")
      (MultiRealm.runtime_of one_config) some_start (codes "x") endpoint manager-IsNamed realm_asked
      main_there realm_started (back_get (codes "x") some_start.state) refl realm_IsConfig
      token_IsConfig endpoint_parsed (cons-ne-nil _ _) (omega arith) state_there state_bytes
      (λ verifier n h. (h, omega arith, n))
