-- ===== src/Core/MemFs.antt =====
-- core/src/providers/memfs/mod.rs: the provider that keeps its files in memory.
-- One call runs at a time; `now` is the clock. `usize` has 64 bits.
pub mod Entry
pub mod Stat
pub mod Io
pub mod Dirs
pub mod Bytes
pub mod Handles
pub mod Tree
pub mod Ancestors
pub mod Rename
