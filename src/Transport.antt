-- ===== src/Transport.antt =====
-- The local transport: src/transport/.
pub mod FrameCodec
