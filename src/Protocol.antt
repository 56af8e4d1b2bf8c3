-- ===== src/Protocol.antt =====
-- The protocol's value types: src/protocol/.
pub mod TaskState
pub mod Json
pub mod Errors
