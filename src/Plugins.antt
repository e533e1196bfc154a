-- ===== src/Plugins.antt =====
-- plugins: the file systems that the server loads as providers.
pub mod Channel
pub mod PageFs
pub mod StreamFs
pub mod PubSubFs
pub mod Kv
