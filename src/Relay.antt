-- ===== src/Relay.antt =====
-- The relay's shared core (core/src/relay_client/mod.rs): protocol types, the mailbox store, request
-- dispatch, the reaper and persistence.
pub mod Types
pub mod Budget
pub mod Store
pub mod Post
pub mod Taken
pub mod Process
pub mod Reaper
pub mod Persist
pub mod Flush
pub mod Core
pub mod Refined
