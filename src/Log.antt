-- ===== src/Log.antt =====
-- common/log/: a fixed buffer, the stream that formats into it, and the logger.
pub mod FixedBuffer
pub mod Stream
pub mod Logger
mod Tests
