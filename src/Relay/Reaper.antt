-- ===== src/Relay/Reaper.antt =====
-- The reaper (core/src/relay_client/mod.rs, the body of `spawn_reaper`): one sweep at `now`.
pub mod Sweep
use Prim.Native.String.{◌++◌ as append}
use nightdrop.Prelude.{
  Bool, List, [], if◌then◌else◌, length, ltb, not, retain, ℕ, ◌+◌, ◌-◌, ◌||◌, ◌∷◌,
}
use nightdrop.Prelude.Bytes.{Bytes}
use nightdrop.Prelude.Map.{Map}
use nightdrop.Relay.Budget.{costs, live}
use nightdrop.Relay.Types.{Platform, Stored, StoreInner, RelayEvent, simple_ev}

-- `queue.retain(…)` over every mailbox, and `map.retain(|_, q| !q.is_empty())`.
keep_queue : Bytes → List Stored → Map (List Stored) → Map (List Stored)
keep_queue handle [] rest = rest
keep_queue handle (e ∷ queue) rest = (handle, e ∷ queue) ∷ rest

unfoldable pub reap_queues : ℕ → Map (List Stored) → Map (List Stored)
unfolding keep_queue
reap_queues now [] = []
reap_queues now ((handle, queue) ∷ m) =
    keep_queue handle (retain (live now) queue) (reap_queues now m)

-- `!keep`
abbrev pub expired : ℕ → Stored → Bool
expired now e = not (live now e)

-- The bytes that the sweep frees.
unfoldable pub freed_by : ℕ → Map (List Stored) → ℕ
freed_by now [] = 0
freed_by now ((_, queue) ∷ m) = costs (retain (expired now) queue) + freed_by now m

-- The `REAP` events, one for each mailbox that lost something.
unfoldable pub reaped : Platform → ℕ → Map (List Stored) → List RelayEvent
reaped p now [] = []
reaped p now ((handle, queue) ∷ m) =
    let kept = retain (live now) queue in
    let dropped = length queue - length kept in
    let rest = reaped p now m in
    if ltb 0 dropped
    then simple_ev "REAP" handle (length kept) (append "dropped=" (p.show dropped)) ∷ rest
    else rest

unfoldable pub reap : ℕ → StoreInner → StoreInner
reap now inner =
    let freed = freed_by now inner.mailboxes in
    record inner {
      mailboxes = reap_queues now inner.mailboxes;
      total_bytes = inner.total_bytes - freed;
      dirty = inner.dirty || ltb 0 freed;
    }
