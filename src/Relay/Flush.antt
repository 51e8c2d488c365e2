-- ===== src/Relay/Flush.antt =====
-- Writing the queue to disk (core/src/relay_client/mod.rs, `do_flush`), as the two steps that other
-- requests may come between: the snapshot under the store's lock, and the write without it.
pub mod Clean
pub mod CleanSweep
use nightdrop.Prelude.{
  Bool, Option, false, if◌then◌else◌, ltb, none, not, some, true, ℕ, ◌&&◌, ◌-◌, ◌/◌,
}
use nightdrop.Relay.Persist.{PersistedStore, serialize_store}
use nightdrop.Relay.Types.{Platform, StoreInner, nanos_per_sec}

-- `FLUSH_MIN_INTERVAL`, 500 ms.
abbrev pub flush_min_interval : ℕ
flush_min_interval = nanos_per_sec / 2

-- `t.elapsed() < FLUSH_MIN_INTERVAL`
abbrev pub too_recent : ℕ → Option ℕ → Bool
too_recent now none = false
too_recent now (some t) = ltb (now - t) flush_min_interval

-- The snapshot to write, if one is due and serde can print it (`serializes`), and the store with `dirty` tentatively cleared.
unfoldable pub begin_flush :
    Platform → ℕ → Bool → Bool → StoreInner → Option PersistedStore × StoreInner
begin_flush p now respect_interval serializes inner =
    if not inner.dirty
    then (none, inner)
    else if respect_interval && too_recent now inner.last_flush
    then (none, inner)
    else if not serializes
    then (none, inner)
    else (some (serialize_store p inner), record inner { dirty = false; last_flush = some now })

-- After the write: a failed one marks the store again.
unfoldable pub finish_flush : Bool → StoreInner → StoreInner
finish_flush written inner = if written then inner else record inner { dirty = true }
