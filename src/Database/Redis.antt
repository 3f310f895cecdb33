-- ===== src/Database/Redis.antt =====
-- The Redis client, DataBase/KaRedis/.
pub mod Session
pub mod Commands
pub mod Maps
pub mod Safety
pub mod Backoff
