-- ===== src/Stream.antt =====
-- stream/: connecting to NATS, and the routes between its servers.
pub mod Routes
pub mod Embedded
pub mod Connect
