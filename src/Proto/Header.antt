-- ===== src/Proto/Header.antt =====
-- The fixed header: its flags (pkg/proto/common.go), and the remaining length that follows them
-- (pkg/proto/protocol.go).
pub mod Flags
pub mod Length
