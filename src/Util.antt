-- ===== src/Util.antt =====
-- The utilities, Util/.
pub mod Zlib
pub mod Stream
pub mod Process
pub mod Config
pub mod Log
pub mod LogText
mod Tests
mod LogTests
