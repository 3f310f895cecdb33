-- ===== src/Database.antt =====
-- The connection pools and their clients, DataBase/.
pub mod Pool
pub mod Redis
pub mod Mysql
mod Tests
mod ManagerTests
