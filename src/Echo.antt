-- ===== src/Echo.antt =====
-- echo: a client that connects the terminal with a server, and the server.
pub mod Server
pub mod Client
mod Tests
