-- ===== src/Sdk.antt =====
-- sdk/src: the types that every file system provider shares.
pub mod Error
pub mod Types
pub mod Flags
pub mod Capabilities
pub mod Provider
