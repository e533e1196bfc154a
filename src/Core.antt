-- ===== src/Core.antt =====
-- core/src: the router, its tables and the providers that it ships.
pub mod Paths
pub mod Mount
pub mod Handle
pub mod MemFs
pub mod Vfs
