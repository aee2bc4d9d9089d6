-- ===== src/Okstore.antt =====
-- pkg/okstore: the message store.
pub mod File
pub mod Message
pub mod Index
pub mod Segment
pub mod Topic
pub mod Stream
