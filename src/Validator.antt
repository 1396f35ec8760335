-- ===== src/Validator.antt =====
-- include/uidentity/keycloak/jwt/access_token_validator.hpp: validation of bearer tokens.
pub mod Outcome
pub mod Stages
pub mod Keys
pub mod Rejects
pub mod Claims
pub mod Front
pub mod Validate
pub mod Tasks
pub mod Tests
