-- ===== src/Lock.antt =====
-- The app lock: the passphrase and the duress secret that wrap the store key
-- (core/src/storage/lock.rs, and `seal` and `open` of core/src/storage/mod.rs).
pub mod Slots
pub mod Attempts
pub mod Files
pub mod Unlock
pub mod Secrets
pub mod Throttle
pub mod Opening
pub mod Restoring
pub mod Arming
