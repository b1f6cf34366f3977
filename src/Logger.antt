-- ===== src/Logger.antt =====
-- Structured logging (src/logger/mod.rs).
pub mod Journal
pub mod Files
pub mod Tail
pub mod Rotation
pub mod Plain
pub mod Writer
