-- ===== src/Socks.antt =====
-- core/socksudp.go.
pub mod Client
pub mod Watch
pub mod Handshake
pub mod Reply
