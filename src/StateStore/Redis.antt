-- ===== src/StateStore/Redis.antt =====
-- RedisStateStore of redis.hpp and redis.cpp. The Redis client is a parameter: what it answers to a
-- command, and the state of the server behind it.
pub mod Codec
pub mod Store
pub mod Laws
pub mod Server
mod Tests
