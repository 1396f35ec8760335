-- ===== src/OAuth.antt =====
-- include/uidentity/keycloak/oauth: the token service and its results.
pub mod Types
pub mod TokenService
mod Tests
