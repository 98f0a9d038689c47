-- ===== src/Chat.antt =====
-- chat/: a server that sends each message it receives to all its clients, and a client.
pub mod Wire
pub mod Server
pub mod Client
pub mod Delivery
pub mod System
mod Tests
