-- ===== src/StateStore.antt =====
-- include/uidentity/keycloak/state_store and src/keycloak/state_store: one-time PKCE states.
pub mod Entry
pub mod Random
pub mod Memory
pub mod Redis
mod Tests
