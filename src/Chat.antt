-- ===== src/Chat.antt =====
-- The chat server, ChatServer/ and MsgDefine/.
pub mod Session
pub mod Reading
pub mod Fronts
pub mod Arrival
mod Tests
