-- ===== src/Pingpong.antt =====
-- pingpong: a server that returns what it reads, and a client that measures the traffic.
pub mod Server
pub mod Client
pub mod Round
mod Tests
