-- ===== src/Socks.antt =====
-- socks: a SOCKS4 proxy (socks/defs.h, socks/socks_server.cpp).
pub mod Address
pub mod Layout
pub mod Options
pub mod Tunnel
mod Tests
