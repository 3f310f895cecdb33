-- ===== src/Net.antt =====
-- The network framework, Net/.
pub mod Buffer
pub mod Channel
pub mod Poller
pub mod Callback
pub mod Connection
pub mod LoopPool
pub mod Socket
pub mod EventLoop
pub mod Acceptor
pub mod Server
mod Tests
mod ConnectionTests
mod ServerTests
