-- ===== src/Relay/Store.antt =====
-- The mailbox store (core/src/relay_client/mod.rs, `StoreInner::drain_handle_bounded`) and the
-- invariant of the store.
pub mod Mailboxes
pub mod Invariant
pub mod Draining
use nightdrop.Prelude.{ℕ, ◌-◌, ◌||◌, Option, none, some, List, [], ◌∷◌, ltb}
use nightdrop.Prelude.Bytes.{Bytes}
use nightdrop.Prelude.Map.{Map, get, insert, remove, or_empty}
use nightdrop.Relay.Budget.{TakeBudget, drain_loop}
use nightdrop.Relay.Types.{Stored, StoreInner}

abbrev pub queue_of : StoreInner → Bytes → List Stored
queue_of inner handle = or_empty (get handle inner.mailboxes)

-- A queue changed in place through `get_mut`; one that is left empty is removed.
unfoldable pub write_back : Bytes → List Stored → Map (List Stored) → Map (List Stored)
write_back handle [] m = remove handle m
write_back handle (s ∷ queue) m = insert handle (s ∷ queue) m

-- The blobs handed out, the budget after them and the store after them.
pub record Drain : Type 0 where
  pub taken : List Stored
  pub budget : TakeBudget
  pub store : StoreInner

unfoldable pub drain_found : Option (List Stored) → StoreInner → Bytes → TakeBudget → ℕ → Drain
drain_found none inner handle budget now = record { taken = []; budget = budget; store = inner }
drain_found (some queue) inner handle budget now =
    let d = drain_loop queue budget now in
    record {
      taken = d.taken;
      budget = d.budget;
      store = record inner {
        mailboxes = write_back handle d.left inner.mailboxes;
        total_bytes = inner.total_bytes - d.freed;
        dirty = ltb 0 d.freed || inner.dirty;
      };
    }

unfoldable pub drain_handle_bounded : StoreInner → Bytes → TakeBudget → ℕ → Drain
unfolding drain_found
drain_handle_bounded inner handle budget now =
    drain_found (get handle inner.mailboxes) inner handle budget now
