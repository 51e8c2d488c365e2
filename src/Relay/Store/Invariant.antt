-- ===== src/Relay/Store/Invariant.antt =====
-- The invariants of the store (core/src/relay_client/mod.rs, `StoreInner`, `RelayLimits`): the byte
-- total against what is queued, and the limits.
use nightdrop.Prelude.{ℕ, ◌+◌, ◌≤◌, ◌≡◌, ◌≢◌, List, [], All, length}
use nightdrop.Prelude.Bytes.{Bytes}
use nightdrop.Prelude.Map.{Distinct, total}
use nightdrop.Relay.Types.{RelayLimits, Stored, StoreInner, entry_cost}
use nightdrop.Relay.Budget.{costs, sizes}
use nightdrop.Relay.Store.Mailboxes.{AtMailboxes}

-- No mailbox is kept empty, and each entry's cost is that of its blob under its handle.
abbrev pub IsMailbox : ℕ → Bytes → List Stored → Type 0
IsMailbox overhead h q = (q ≢ []) × All (λ s. s.cost ≡ entry_cost h (length s.bytes) overhead) q

pub record IsConsistent (overhead : ℕ) (s : StoreInner) : Type 0 where
  pub distinct : Distinct s.mailboxes
  pub counted : s.total_bytes ≡ total costs s.mailboxes
  pub kept : AtMailboxes (IsMailbox overhead) s.mailboxes

-- What the limits promise of one entry: its size, and how long it may stay.
abbrev pub IsAdmissible : RelayLimits → Stored → Type 0
IsAdmissible limits s =
    (length s.bytes ≤ limits.max_blob_bytes) × (s.expiry ≤ s.posted + limits.max_ttl)

abbrev pub FitsMailbox : RelayLimits → Bytes → List Stored → Type 0
FitsMailbox limits h q =
    (length q ≤ limits.max_mailbox_blobs)
    × (sizes q ≤ limits.max_mailbox_bytes)
    × All (IsAdmissible limits) q

pub record IsBounded (limits : RelayLimits) (s : StoreInner) : Type 0 where
  pub total_fits : s.total_bytes ≤ limits.max_total_bytes
  pub each_fits : AtMailboxes (FitsMailbox limits) s.mailboxes

pub record IsValid (limits : RelayLimits) (s : StoreInner) : Type 0 where
  pub consistent : IsConsistent limits.entry_overhead_bytes s
  pub bounded : IsBounded limits s
