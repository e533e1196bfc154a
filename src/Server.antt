-- ===== src/Server.antt =====
-- server/src: the parts of the HTTP server that stand on their own.
pub mod CircuitBreaker
pub mod Dates
