-- ===== src/Json.antt =====
-- include/uidentity/keycloak/detail/json_utils.hpp: values are found by scanning, with no parse tree.
pub mod Skip
pub mod Strings
pub mod Integers
pub mod Extract
pub mod Arrays
pub mod Text
pub mod Steps
pub mod Rounds
pub mod SkipPrint
pub mod Hang
pub mod Lookup
pub mod ElementsPrint
pub mod Elements
pub mod Words
pub mod Running
mod Tests
