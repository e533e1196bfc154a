-- ===== src/Plugins/PageFs.antt =====
-- plugins/pagefs/src: a file system of pages of 16 KiB over a key-value store.
pub mod Keys
pub mod Kv
pub mod Node
pub mod Store
pub mod Names
pub mod Files
pub mod Tree
pub mod Changes
pub mod View
pub mod Reads
pub mod Frame
pub mod Removal
pub mod Walk
pub mod Renames
pub mod Sizes
pub mod Creation
pub mod Listing
pub mod Truncate
pub mod Resize
pub mod Growth
pub mod Access
pub mod Roundtrip
