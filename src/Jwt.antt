-- ===== src/Jwt.antt =====
-- include/uidentity/keycloak/detail/jwt_utils.hpp: compact JWTs, key sets, roles and signatures.
pub mod Base64
pub mod Base64RoundTrip
pub mod Token
pub mod Keys
pub mod Claims
pub mod Roles
pub mod Signature
pub mod Ownership
mod Tests
