-- ===== src/Handlers.antt =====
-- include/uidentity/handlers and include/uidentity/probes: the HTTP handlers.
pub mod AuthHandler
pub mod Probe
mod Tests
