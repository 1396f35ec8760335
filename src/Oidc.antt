-- ===== src/Oidc.antt =====
-- include/uidentity/keycloak/detail/oidc_utils.hpp and oidc/discovery.hpp.
pub mod Endpoints
pub mod Uri
pub mod Form
pub mod Requests
mod Tests
pub mod Discovery
