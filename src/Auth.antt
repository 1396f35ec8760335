-- ===== src/Auth.antt =====
-- include/uidentity/keycloak/auth: the authorization URL, and the bearer middleware.
pub mod PkceStrategy
pub mod Bearer
mod Tests
