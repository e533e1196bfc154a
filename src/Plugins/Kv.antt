-- ===== src/Plugins/Kv.antt =====
-- plugins/kv/src/lib.rs: files and directories as the entries of one ordered map.
pub mod Provider
pub mod Listing
pub mod Files
pub mod Entries
pub mod Sorted
