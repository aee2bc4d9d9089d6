-- ===== src/Okutil.antt =====
-- pkg/okutil.
pub mod Fifo
