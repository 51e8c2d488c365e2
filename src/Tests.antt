-- ===== src/Tests.antt =====
-- Concrete runs: the theorems applied to inputs of the program.
mod Samples
mod Relay
mod Core
mod Lock
mod Wire
mod Limits
mod Streams
mod Watchdog
mod Sealing
mod Mailbox
mod Keyroll
mod Directory
