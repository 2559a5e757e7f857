-- ===== src/Cso.antt =====
-- backend/cso: the channel stream organiser, which shares one upstream stream between clients.
pub mod Types
pub mod ByteQueue
pub mod Capacity
pub mod Fanout
pub mod Policy
pub mod Sources
pub mod External
pub mod Ingest
pub mod Output
pub mod Runtime
pub mod Playlist
pub mod Subscriptions
pub mod VodCache
