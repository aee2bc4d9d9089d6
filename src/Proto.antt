-- ===== src/Proto.antt =====
-- The wire protocol of pkg/proto.
pub mod Result
pub mod FrameType
pub mod ChannelType
pub mod Reason
pub mod ByteSize
pub mod Types
pub mod Encoder
pub mod Decoder
pub mod Header
pub mod Connect
pub mod Connack
pub mod Send
pub mod Sendack
pub mod Recv
pub mod Recvack
pub mod Disconnect
pub mod Sub
pub mod Suback
pub mod Codec
