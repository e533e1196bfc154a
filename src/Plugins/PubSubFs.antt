-- ===== src/Plugins/PubSubFs.antt =====
-- plugins/pubsubfs/src/lib.rs: topics with publishers and subscribers, and a ring of the last messages
-- for a subscriber that comes late.
pub mod Topic
pub mod Names
pub mod Provider
pub mod Calls
pub mod Ring
pub mod Drains
pub mod Tracking
pub mod Delivery
