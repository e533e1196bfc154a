-- ===== src/Plugins/StreamFs.antt =====
-- plugins/streamfs/src/lib.rs: streams with many writers and readers, and a ring of the last chunks
-- for a reader that comes late.
pub mod Stream
pub mod Provider
pub mod Calls
pub mod Ring
pub mod Late
