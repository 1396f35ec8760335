-- ===== src/Client.antt =====
-- include/uidentity/keycloak/keycloak_client.hpp and multi_realm.hpp: logins over a state store and token
-- services.
pub mod Store
pub mod Keycloak
pub mod MultiRealm
pub mod Tests
