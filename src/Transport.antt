-- ===== src/Transport.antt =====
-- The transports of internal/transport.
mod Types
pub mod Memory
pub mod Kafka
pub mod Nats
pub use Types.*
