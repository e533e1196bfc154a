-- ===== src/Fuse.antt =====
-- fuse/src: the tables of the FUSE client.
pub mod Inodes
pub mod Handles
