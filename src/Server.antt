-- ===== src/Server.antt =====
-- The server of internal/server.
pub mod Dispatch
pub mod InFlight
pub mod Queue
pub mod RetryQueue
pub mod Members
pub mod Channel
pub mod Processor
pub mod ConnManager
pub mod Auth
pub mod Conversation
