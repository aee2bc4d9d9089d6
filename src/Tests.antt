-- ===== src/Tests.antt =====
-- Every theorem of the list of results at a concrete input.
pub mod Frames
pub mod Codec
pub mod Dispatch
pub mod Queues
pub mod Context
pub mod Store
pub mod Retry
pub mod Streams
pub mod Locks
pub mod Channels
pub mod Sending
pub mod Connections
pub mod Conversations
