-- ===== src/Relay/Taken.antt =====
-- What a draining request takes from the mailboxes, seen as a function from handles to queues
-- (core/src/relay_client/mod.rs, `Take`, `Fetch`, `TakeMany`).
use nightdrop.Prelude.{All, List, [], if◌then◌else◌, retain, ℕ, ◌++◌, ◌∷◌, ◌≡◌}
use nightdrop.Prelude.Bytes.{Bytes, same}
use nightdrop.Relay.Budget.{live}
use nightdrop.Relay.Types.{Stored}

abbrev pub Queues : Type 0
Queues = Bytes → List Stored

-- Only one mailbox changes.
abbrev pub IsUpdated : Queues → Bytes → List Stored → Queues → Type 0
IsUpdated a handle queue a' = (j : Bytes) → a' j ≡ (if same handle j then queue else a j)

abbrev pub IsSame : Queues → Queues → Type 0
IsSame a a' = (j : Bytes) → a' j ≡ a j

-- Some live blobs are taken, oldest first; the live ones that are left stay in order. Expired ones may
-- go.
abbrev pub IsTaken : ℕ → Queues → Bytes → List Stored → Queues → Type 0
IsTaken now a handle taken a' =
    (rest : List Stored) × (taken ++ retain (live now) rest ≡ retain (live now) (a handle))
    × IsUpdated a handle rest a'

-- The same at one handle after the other.
abbrev pub AreTaken : ℕ → Queues → List Bytes → List Stored → Queues → Type 0
AreTaken now a [] taken a' = (taken ≡ []) × IsSame a a'
AreTaken now a (handle ∷ handles) taken a' =
    (first : List Stored) × (rest : List Stored) × (b : Queues) × (taken ≡ first ++ rest)
    × IsTaken now a handle first b
    × AreTaken now b handles rest a'

-- Nothing live waits in these mailboxes.
abbrev pub AreEmpty : ℕ → Queues → List Bytes → Type 0
AreEmpty now a handles = All (λ h. retain (live now) (a h) ≡ []) handles
