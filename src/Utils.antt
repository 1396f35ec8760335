-- ===== src/Utils.antt =====
-- include/uidentity/utils: percent-encoding and cookies.
pub mod UrlEncode
pub mod Cookies
mod Tests
