-- ===== src/Lib.antt =====
-- Verification of UIdentity, a C++ library that connects an HTTP service to Keycloak by OpenID
-- Connect: PKCE login, one-time states, tokens, and the validation of bearer tokens. Paths below
-- are from the root of the repository.
--
-- The parts build on each other. Utils is what include/uidentity/utils holds; Json is the scanner
-- of keycloak/detail/json_utils.hpp; Jwt, on top of it, is keycloak/detail/jwt_utils.hpp;
-- StateStore has both stores of one-time states; Http and Oidc are the messages and the addresses;
-- Validator is AccessTokenValidator, which joins them. OAuth and Auth talk to Keycloak and guard a
-- request; Client runs logins over a store and token services, and Handlers answers HTTP requests
-- with them.
--
--   Base: the helpers that all parts share, on lists, texts, maps (std::unordered_map), errors and
--     integers.
--   Utils: url_encode and url_decode (include/uidentity/utils/url_encode.hpp), and the cookies of
--     utils/cookies.hpp.
--   Json: skip_ws, skip_json_string and skip_json_value in Json/Skip, parse_json_string and
--     split_ws in Json/Strings, the numbers in Json/Integers, extract_json_value and its readers
--     in Json/Extract, arrays in Json/Arrays. Json/Text is the grammar that the scanner is
--     measured by; Json/Lookup, Json/Elements and Json/Integers/Written compare the readers with
--     it, and Json/Words has the reference of split_ws.
--   Jwt: base64url_decode in Jwt/Base64, decode_jwt in Jwt/Token, extract_jwks in Jwt/Keys, roles
--     and audience in Jwt/Claims, keys and signatures in Jwt/Signature. Jwt/Roles is on the roles
--     as a set.
--   StateStore: StateEntry, random_state_32, MemoryStateStore
--     (src/keycloak/state_store/memory.cpp) in StateStore/Memory and RedisStateStore (redis.cpp)
--     in StateStore/Redis.
--   Http: include/uidentity/api_models/http_context.hpp, and the fields of requests and responses
--     that the code touches.
--   Oidc: include/uidentity/keycloak/detail/oidc_utils.hpp, and parse_form_encoded of
--     handlers/AuthHandler.h next to build_form_body; discovery.hpp in Oidc/Discovery.
--   Pkce: src/keycloak/pkce.cpp.
--   OAuth: include/uidentity/keycloak/oauth: TokenSet and OAuthResult in OAuth/Types, TokenService
--     in OAuth/TokenService.
--   Auth: include/uidentity/keycloak/auth: PkceAuthStrategy in Auth/PkceStrategy,
--     BearerAuthMiddleware in Auth/Bearer.
--   Client: keycloak_client.hpp in Client/Keycloak and multi_realm.hpp in Client/MultiRealm, over
--     the interface of a state store in Client/Store (StateStoreLike of api_models/concepts.hpp,
--     and KeycloakHandler), which RedisStateStore fills in Client/Store/Redis and MemoryStateStore
--     in Client/Store/Memory. Under Client/MultiRealm, Login, Binding and Replay follow a login
--     through its callback, Concurrent has other logins and callbacks between the two, and
--     Validation a token through its realm.
--   Handlers: handlers/AuthHandler.h and probes/Probe.h; Handlers/AuthHandler/Realms has
--     AuthHandler over MultiRealmManager, and Flow a whole login over it.
--   Validator: include/uidentity/keycloak/jwt/access_token_validator.hpp. The stages of validate
--     are in Validator/Stages, the key cache in Validator/Keys, and their composition in
--     Validator/Validate. Validator/Tasks splits validate at its waits, for calls that share the
--     cache: a relation has their moves in any order, with the last reading of the system clock by
--     each call kept for the theorems. Validator/Tasks/Alone is on a call that nothing comes
--     between.
--
-- Texts are lists of bytes, and a position in a text is the suffix that it starts. Each function
-- that loops on JSON takes fuel; a run that has not ended by then is an error of its own,
-- out_of_fuel. For a well-formed value its length is enough; Json/Hang has texts on which none is.
-- Exceptions are values, as is the behaviour that the language leaves undefined. A coroutine that
-- waits is a step on the state of the network; a function under a mutex is one step. Where calls
-- run side by side, a move is what one of them does between two waits, and a run is any sequence
-- of moves.
--
-- OpenSSL, the Redis client, the HTTP client, the clocks and the random bytes are parameters. What
-- the theorems take from the Redis server is written out in StateStore/Redis/Laws, from OpenSSL
-- for PKCE in Pkce/Shape, and from the steady clock of a process in Client/Store/Memory. The
-- steady clock is read in the unit of the lifetimes, and a sum of a reading and a lifetime has no
-- bound; in the code it is in nanoseconds, and a lifetime above 292 years overflows.
--
-- Not modelled: HttpClientLike of the concepts header, which no class uses, the status message and
-- the log lines of the probes, and include/probes/Probe.h, a copy of
-- include/uidentity/probes/Probe.h.
pub mod Base
pub mod Utils
pub mod Json
pub mod Jwt
pub mod StateStore
pub mod Http
pub mod Oidc
pub mod Validator
pub mod Pkce
pub mod OAuth
pub mod Auth
pub mod Client
pub mod Handlers
